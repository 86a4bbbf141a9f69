-- ===== src/Supervisor/Shutdown.antt =====
-- A shutdown of vm-frontend/src/supervisor.rs ends every task.
use wrapper.Common.{
  ◌≡◌, refl, sym, ap, subst, ◌∙◌, true, false, Option, none, some, List, [], ◌∷◌, ◌++◌, map, String,
  append_assoc, append-nil, inl, inr, Bool-cases, if◌then◌else◌,
}
use wrapper.Supervisor.{
  SupervisorTaskStatus, cancelled, is_terminal, SupervisorTaskResult, SupervisorShutdown, requested,
  Watch, WatchLaws, SupervisorError, stopped, SupervisorTaskState, task_result, task_statuses,
  wait_for_shutdown, cancel_from, run_until_shutdown, summarise,
}
use wrapper.Supervisor.Invariant.{IsValid, task_status-IsValid, IsValid-live, IsValid-set}

-- What a shutdown for a reason makes of a status.
abbrev pub ended : String → SupervisorTaskStatus → SupervisorTaskStatus
ended why status = if is_terminal status then status else cancelled why

module _ (watch : Watch) (laws : WatchLaws watch) where
  open watch use {Channel, channel, borrow, send}
  open laws use {live, channel-live, borrow-channel, send-live}

  abbrev Task : Type 0
  Task = SupervisorTaskState watch

  abbrev pub ended_result : String → Task → SupervisorTaskResult
  ended_result why task = record { name = task.spec.name; status = ended why (borrow task.status) }

  -- What the loop over the controllers leaves: no error, and every task of `todo` ended.
  abbrev Ended : String → (done todo : List Task) → Option SupervisorError × List Task → Type 0
  Ended why done todo (e, tasks) =
      (e ≡ none)
      × ((task_statuses watch tasks ≡ task_statuses watch done ++ map (ended_result why) todo)
          × IsValid watch laws tasks)

  map_snoc :
      (done : List Task) (t : Task) (rs : List SupervisorTaskResult)
      → task_statuses watch (done ++ t ∷ []) ++ rs
        ≡ task_statuses watch done ++ task_result watch t ∷ rs
  map_snoc [] t rs = refl
  map_snoc (d ∷ done) t rs = ap (◌∷◌ (task_result watch d)) (map_snoc done t rs)

  -- One task of the loop, whose result is that of the ended one.
  Ended-step :
      (why : String) (done todo : List Task) (t t' : Task) (r : Option SupervisorError × List Task)
      → task_result watch t' ≡ ended_result why t
      → Ended why (done ++ t' ∷ []) todo r
      → Ended why done (t ∷ todo) r
  Ended-step why done todo t t' (e, tasks) k (h, (s, v)) =
      (h, (s ∙ map_snoc done t' (map (ended_result why) todo) ∙ rw k refl, v))

  cancel_from_terminal :
      (why : String) (done todo : List Task) (t : Task)
      → IsValid watch laws (done ++ t ∷ todo)
      → is_terminal (borrow t.status) ≡ true
      → cancel_from watch why done (t ∷ todo) ≡ cancel_from watch why (done ++ t ∷ []) todo
  unfolding cancel_from
  cancel_from_terminal why done todo t v b =
      rw (task_status-IsValid watch laws done todo t v, b) refl

  cancel_from_sent :
      (why : String) (done todo : List Task) (t : Task) (c : Channel)
      → IsValid watch laws (done ++ t ∷ todo)
      → is_terminal (borrow t.status) ≡ false
      → send (cancelled why) t.status ≡ some c
      → cancel_from watch why done (t ∷ todo)
        ≡ cancel_from watch why (done ++ record { spec = t.spec; status = c } ∷ []) todo
  unfolding cancel_from
  cancel_from_sent why done todo t c v b sent =
      rw (task_status-IsValid watch laws done todo t v, b, sent) refl

  cancel_from-Ended :
      (why : String) (done todo : List Task)
      → IsValid watch laws (done ++ todo)
      → Ended why done todo (cancel_from watch why done todo)
  unfolding cancel_from
  cancel_from-Ended why done [] v =
      (refl, (sym (append-nil _), subst (IsValid watch laws) (append-nil done) v))
  cancel_from-Ended why done (t ∷ todo) v =
      let next : (t' : Task)
          → t'.spec ≡ t.spec
          → live t'.status ≡ true
          → IsValid watch laws ((done ++ t' ∷ []) ++ todo) =
        λ t' e l.
          rw (append_assoc done (t' ∷ []) todo) (IsValid-set watch laws done todo t t' e l v) in
      elim (Bool-cases (is_terminal (borrow t.status))) [
        | inl b ↦
            subst (Ended why done (t ∷ todo)) (sym (cancel_from_terminal why done todo t v b)) (
              Ended-step why done todo t t (cancel_from watch why (done ++ t ∷ []) todo) (rw b refl)
                (cancel_from-Ended why (done ++ t ∷ []) todo
                  (next t refl (IsValid-live watch laws done todo t v))))
        | inr b ↦
            let (c, (sent, (now, l))) =
              send-live (cancelled why) t.status (IsValid-live watch laws done todo t v) in
            let t' : Task = record { spec = t.spec; status = c } in
            subst (Ended why done (t ∷ todo)) (sym (cancel_from_sent why done todo t c v b sent)) (
              Ended-step why done todo t t' (cancel_from watch why (done ++ t' ∷ []) todo)
                (rw (b, now) refl) (cancel_from-Ended why (done ++ t' ∷ []) todo (next t' refl l)))
      ]

  summarise-Ended :
      (why : String) (tasks : List Task) (r : Option SupervisorError × List Task)
      → Ended why [] tasks r
      → (summarise watch (requested why) r ≡ (
        stopped (record { shutdown = requested why; task_results = map (ended_result why) tasks }),
        r.1,
      ))
        × (task_statuses watch r.1 ≡ map (ended_result why) tasks)
  summarise-Ended why tasks (e, after) (h, (s, v)) = (rw (h, s) refl, s)

  -- For watch channels with the laws that tokio documents, where the tasks have different names
  -- and receivers and the wait ends with a requested shutdown: run_until_shutdown succeeds, and
  -- its summary and the tasks after it have, in the order of the tasks, the old status of every
  -- task that had ended, and Cancelled with the reason of the shutdown for every other.
  pub run_until_shutdown_lem :
      (why : String) (current : SupervisorShutdown) (changes : List SupervisorShutdown)
      (tasks : List Task)
      → IsValid watch laws tasks
      → wait_for_shutdown current changes ≡ some (requested why)
      → (after : List Task) × ((run_until_shutdown watch current changes tasks ≡ (
        stopped (record { shutdown = requested why; task_results = map (ended_result why) tasks }),
        after,
      ))
          × (task_statuses watch after ≡ map (ended_result why) tasks))
  unfolding run_until_shutdown
  run_until_shutdown_lem why current changes tasks v h =
      let k = summarise-Ended why tasks _ (cancel_from-Ended why [] tasks v) in
      ((cancel_from watch why [] tasks).1, (rw (run_until_shutdown, h) k.0, k.1))
