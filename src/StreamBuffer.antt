-- ===== src/StreamBuffer.antt =====
-- vm-frontend/src/stream_buffer.rs: bounded buffers of bytes on their way to a connection.
pub mod Laws
pub mod Tests
use wrapper.Common.{
  ℕ, zero, suc, ◌+◌, ◌-◌, ◌*◌, ◌^◌, Option, none, some, Bool, true, false, List, [], ◌∷◌, ◌++◌,
  Bytes, String, ltb, leb, ◌==◌, length, take, drop, min, if◌then◌else◌, ◌&&◌, not,
}

abbrev pub usize_max : ℕ
usize_max = 2 ^ 64 - 1

abbrev pub default_stream_chunk_bytes : ℕ
default_stream_chunk_bytes = 64 * 1024

pub record PendingBufferLimit : Type 0 where
  pub limit : ℕ
  pub attempted : ℕ

pub data Checked {ℓ} (A : Type ℓ) : Type ℓ where
  within : A → Checked A
  over : PendingBufferLimit → Checked A

-- `usize::saturating_add`.
abbrev pub saturating_add : ℕ → ℕ → ℕ
saturating_add a b = min (a + b) usize_max

unfoldable pub check_pending_buffer_limit : ℕ → ℕ → ℕ → Checked ℕ
check_pending_buffer_limit current incoming limit =
    let attempted = saturating_add current incoming in
    if ltb limit attempted
    then over (record { limit = limit; attempted = attempted })
    else within attempted

-- Returns the buffer after the call too; it is unchanged at an error.
unfoldable pub extend_pending_buffer : Bytes → Bytes → ℕ → Checked (Unit {0}) × Bytes
unfolding check_pending_buffer_limit
extend_pending_buffer pending bytes limit =
    elim (check_pending_buffer_limit (length pending) (length bytes) limit) [
      | over e ↦ (over e, pending)
      | within _ ↦ (within tt, pending ++ bytes)
    ]

-- What one call of `Read::read` on the connection does: a chunk of what is there (`received []` is
-- the end of the stream), or an error.
pub data ReadOutcome : Type 0 where
  received : Bytes → ReadOutcome
  read_would_block : ReadOutcome
  read_error : String → ReadOutcome

pub data NonblockingRead : Type 0 where
  payload : Bytes → NonblockingRead
  closed : NonblockingRead
  would_block : NonblockingRead

pub data IoResult {ℓ} (A : Type ℓ) : Type ℓ where
  done : A → IoResult A
  io_error : String → IoResult A

-- `connection` gives the outcome for each size of buffer; a read fills at most the buffer,
-- so no more than that of what is received counts.
unfoldable pub read_nonblocking_chunk : (ℕ → ReadOutcome) → ℕ → IoResult NonblockingRead
read_nonblocking_chunk connection max_bytes =
    if max_bytes == 0
    then done would_block
    else elim (connection (min max_bytes default_stream_chunk_bytes)) [
      | received [] ↦ done closed
      | received (b ∷ bs) ↦
          done (payload (take (min max_bytes default_stream_chunk_bytes) (b ∷ bs)))
      | read_would_block ↦ done would_block
      | read_error e ↦ io_error e
    ]

-- What a call of `Write::write` does: it takes some of the bytes offered, or fails.
pub data WriteOutcome : Type 0 where
  accepted : ℕ → WriteOutcome
  write_would_block : WriteOutcome
  write_error : String → WriteOutcome

-- The connection: what its next calls of `write` do (an exhausted list blocks), and what it has
-- taken so far. It takes at most what it is offered, as `Write` requires.
pub record Connection : Type 0 where
  pub script : List WriteOutcome
  pub taken : Bytes

pub record Written : Type 0 where
  pub outcome : IoResult ℕ
  pub connection : Connection
  pub pending : Bytes

abbrev pub stopped : IoResult ℕ → List WriteOutcome → Bytes → Bytes → Written
stopped r script taken pending = record {
  outcome = r;
  connection = record { script = script; taken = taken };
  pending = pending;
}

-- The test of the loop.
abbrev pub goes_on : Bytes → ℕ → ℕ → Bool
goes_on pending written max_bytes = not (length pending == 0) && ltb written max_bytes

-- What a write takes of what it is offered.
abbrev pub count_of : ℕ → Bytes → ℕ → ℕ → ℕ
count_of n pending written max_bytes = min n (min (max_bytes - written) (length pending))

-- The loop, on the calls that the connection will answer.
unfoldable pub write_loop : List WriteOutcome → Bytes → Bytes → ℕ → ℕ → Written
write_loop [] taken pending written max_bytes = stopped (done written) [] taken pending
write_loop (accepted n ∷ script) taken pending written max_bytes =
    elim (goes_on pending written max_bytes) [
      | false ↦ stopped (done written) (accepted n ∷ script) taken pending
      | true ↦ elim (count_of n pending written max_bytes == 0) [
        | true ↦ stopped (done written) script taken pending
        | false ↦
            write_loop script (taken ++ take (count_of n pending written max_bytes) pending)
              (drop (count_of n pending written max_bytes) pending)
              (written + count_of n pending written max_bytes) max_bytes
      ]
    ]
write_loop (write_would_block ∷ script) taken pending written max_bytes =
    elim (goes_on pending written max_bytes) [
      | false ↦ stopped (done written) (write_would_block ∷ script) taken pending
      | true ↦ stopped (done written) script taken pending
    ]
write_loop (write_error e ∷ script) taken pending written max_bytes =
    elim (goes_on pending written max_bytes) [
      | false ↦ stopped (done written) (write_error e ∷ script) taken pending
      | true ↦ stopped (io_error e) script taken pending
    ]

unfoldable pub write_pending_best_effort : Connection → Bytes → ℕ → Written
write_pending_best_effort c pending max_bytes = write_loop c.script c.taken pending 0 max_bytes

unfoldable pub append_and_write_pending_best_effort : Connection → Bytes → Bytes → Written
unfolding write_pending_best_effort
append_and_write_pending_best_effort c pending bytes =
    write_pending_best_effort c (pending ++ bytes) usize_max
