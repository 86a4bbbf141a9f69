-- ===== src/Supervisor.antt =====
-- vm-frontend/src/supervisor.rs: the tasks of a launch and their shutdown. A watch channel of the
-- tokio crate is the parameter `Watch`; a controller of a task is the position of the task, whose
-- channel it shares.
pub mod Plan
pub mod Invariant
pub mod Shutdown
pub mod Tests
use wrapper.Common.{
  ℕ, ◌≡◌, Bool, true, false, Option, none, some, List, [], ◌∷◌, ◌++◌, map, String, if◌then◌else◌,
  ◌==◌,
}
unfoldable pub use Plan.*

-- The channel of a task's status: `send` is `none` where the channel has no receiver.
pub record Watch : Type 1 where
  pub Channel : Type 0
  pub channel : SupervisorTaskStatus → Channel
  pub borrow : Channel → SupervisorTaskStatus
  pub send : SupervisorTaskStatus → Channel → Option Channel

-- What tokio documents of it. `live` says that the channel has a receiver.
pub record WatchLaws (watch : Watch) : Type 0 where
  pub live : watch.Channel → Bool
  pub channel-live : (s : SupervisorTaskStatus) → live (watch.channel s) ≡ true
  pub borrow-channel : (s : SupervisorTaskStatus) → watch.borrow (watch.channel s) ≡ s
  pub send-live :
      (s : SupervisorTaskStatus) (c : watch.Channel)
      → live c ≡ true
      → (c' : watch.Channel) × ((watch.send s c ≡ some c')
          × ((watch.borrow c' ≡ s) × (live c' ≡ true)))

-- `unwrap_or(SupervisorTaskStatus::Planned)`.
abbrev pub get_or_planned : Option SupervisorTaskStatus → SupervisorTaskStatus
get_or_planned none = planned
get_or_planned (some status) = status

-- `unwrap_or("supervisor shutdown")`.
abbrev pub get_or_shutdown : Option String → String
get_or_shutdown none = "supervisor shutdown"
get_or_shutdown (some why) = why

-- `wait_for_shutdown`: the current value, and those of the further wake-ups; after the last of them
-- the sender is gone.
unfoldable pub wait_for_shutdown :
    SupervisorShutdown → List SupervisorShutdown → Option SupervisorShutdown
wait_for_shutdown (requested why) changes = some (requested why)
wait_for_shutdown running [] = none
wait_for_shutdown running (next ∷ changes) = wait_for_shutdown next changes

pub data RunResult : Type 0 where
  stopped : SupervisorRunSummary → RunResult
  run_failed : SupervisorError → RunResult

module _ (watch : Watch) where
  open watch use {Channel, channel, borrow, send}

  pub record SupervisorTaskState : Type 0 where
    pub spec : SupervisorTaskSpec
    pub status : Channel

  abbrev pub planned_task : SupervisorTaskSpec → SupervisorTaskState
  planned_task spec = record { spec = spec; status = channel planned }

  abbrev pub task_result : SupervisorTaskState → SupervisorTaskResult
  task_result task = record { name = task.spec.name; status = borrow task.status }

  -- `task_statuses`, which is `planned_task_results` too.
  abbrev pub task_statuses : List SupervisorTaskState → List SupervisorTaskResult
  task_statuses tasks = map task_result tasks

  unfoldable pub task_status :
      List SupervisorTaskState → SupervisorTaskName → Option SupervisorTaskStatus
  task_status [] name = none
  task_status (task ∷ tasks) name =
      let rest = task_status tasks name in
      if same_name task.spec.name name then some (borrow task.status) else rest

  -- `SupervisorTaskController::set_status`, with the task after the call.
  abbrev pub set_status : SupervisorTaskState → SupervisorTaskStatus → Option SupervisorTaskState
  set_status task status = elim (send status task.status) [
    | none ↦ none
    | some c ↦ some (record task { status = c })
  ]

  abbrev pub mark_starting : SupervisorTaskState → Option SupervisorTaskState
  mark_starting task = set_status task starting

  abbrev pub mark_ready : SupervisorTaskState → Option SupervisorTaskState
  mark_ready task = set_status task ready

  abbrev pub mark_finished : SupervisorTaskState → Option SupervisorTaskState
  mark_finished task = set_status task finished

  abbrev pub mark_failed : SupervisorTaskState → String → Option SupervisorTaskState
  mark_failed task cause = set_status task (task_failed cause)

  abbrev pub mark_cancelled : SupervisorTaskState → String → Option SupervisorTaskState
  mark_cancelled task why = set_status task (cancelled why)

  -- The loop over the controllers: `done` are the tasks behind it.
  unfoldable pub cancel_from :
      String
      → (done todo : List SupervisorTaskState) → Option SupervisorError × List SupervisorTaskState
  unfolding task_status
  cancel_from why done [] = (none, done)
  cancel_from why done (task ∷ todo) =
      let kept = cancel_from why (done ++ task ∷ []) todo in
      let status = get_or_planned (task_status (done ++ task ∷ todo) task.spec.name) in
      if is_terminal status then kept else elim (mark_cancelled task why) [
        | none ↦ (some (task_status_channel_closed task.spec.name), done ++ task ∷ todo)
        | some task' ↦ cancel_from why (done ++ task' ∷ []) todo
      ]

  -- `run_until_shutdown`, for the values that the shutdown channel takes, and the tasks as they are
  -- when the wait is over; with the tasks after the call.
  abbrev pub summarise :
      SupervisorShutdown
      → Option SupervisorError × List SupervisorTaskState
      → RunResult × List SupervisorTaskState
  summarise shutdown (some e, tasks) = (run_failed e, tasks)
  summarise shutdown (none, tasks) =
      (stopped (record { shutdown = shutdown; task_results = task_statuses tasks }), tasks)

  unfoldable pub run_until_shutdown :
      SupervisorShutdown
      → List SupervisorShutdown
      → List SupervisorTaskState
      → RunResult × List SupervisorTaskState
  unfolding wait_for_shutdown cancel_from
  run_until_shutdown current changes tasks = elim (wait_for_shutdown current changes) [
    | none ↦ (run_failed shutdown_channel_closed, tasks)
    | some shutdown ↦ summarise shutdown (cancel_from (get_or_shutdown (reason shutdown)) [] tasks)
  ]

  module _ {ℓ} (Config : Type ℓ) where
    pub record LaunchSupervisor : Type ℓ where
      pub plan : SupervisorPlan Config
      pub tasks : List SupervisorTaskState
      pub shutdown : SupervisorShutdown

    unfoldable pub new : SupervisorPlan Config → LaunchSupervisor
    unfolding task_specs_from_plan
    new plan = record {
      plan = plan;
      tasks = map planned_task (task_specs_from_plan plan);
      shutdown = running;
    }

    abbrev pub request_shutdown : LaunchSupervisor → String → LaunchSupervisor
    request_shutdown supervisor why = record supervisor { shutdown = requested why }
