-- ===== src/StreamBuffer/Tests.antt =====
-- The theorems on pending buffers at concrete connections.
use wrapper.Common.{◌≡◌, ◌≤◌, ◌<◌, [], ◌∷◌, ◌++◌, arith, ◌⊎◌}
use wrapper.StreamBuffer.{
  Connection, accepted, write_would_block, write_pending_best_effort, extend_pending_buffer, within,
  over,
}
use wrapper.StreamBuffer.Laws.{extend_pending_buffer_lem, write_pending_best_effort_lem}

abbrev slow : Connection
slow = record { script = accepted 2 ∷ write_would_block ∷ accepted 9 ∷ []; taken = 7 ∷ [] }

abbrev eager : Connection
eager = record { script = accepted 2 ∷ accepted 1 ∷ accepted 9 ∷ []; taken = [] }

extend_pending_buffer_lem_example :
    (◌≤◌ 3 3 × (extend_pending_buffer (1 ∷ 2 ∷ []) (3 ∷ []) 3 ≡ (within tt, 1 ∷ 2 ∷ 3 ∷ [])))
    ⊎ ((3 < 3)
        × (extend_pending_buffer (1 ∷ 2 ∷ []) (3 ∷ []) 3
            ≡ (over (record { limit = 3; attempted = 3 }), 1 ∷ 2 ∷ [])))
extend_pending_buffer_lem_example = extend_pending_buffer_lem (1 ∷ 2 ∷ []) (3 ∷ []) 3 (omega arith)

write_pending_best_effort_lem_example :
    let w = write_pending_best_effort slow (1 ∷ 2 ∷ 3 ∷ []) 10 in
    w.connection.taken ++ w.pending ≡ 7 ∷ 1 ∷ 2 ∷ 3 ∷ []
write_pending_best_effort_lem_example = (write_pending_best_effort_lem slow (1 ∷ 2 ∷ 3 ∷ []) 10).0
