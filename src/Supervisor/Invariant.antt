-- ===== src/Supervisor/Invariant.antt =====
-- The tasks of vm-frontend/src/supervisor.rs have different names and live status channels.
use wrapper.Common.{◌≡◌, refl, ap, ◌∙◌, true, false, Option, none, some, List, [], ◌∷◌, ◌++◌, map}
use wrapper.Supervisor.{
  SupervisorTaskName, composed_fs, config_fs, vmnet_gateway, docker_proxy, qemu, same_name,
  task_spec, SupervisorTaskStatus, planned, SupervisorPlan, ManagedTask, embedded_composed_fs,
  managed_vmnet_gateway, managed_docker_proxy, managed_child_process, task_specs_from_plan,
  push_some, Watch, WatchLaws, SupervisorTaskState, planned_task, task_status, set_status, new,
}

same_name_refl : (n : SupervisorTaskName) → same_name n n ≡ true
same_name_refl composed_fs = refl
same_name_refl config_fs = refl
same_name_refl vmnet_gateway = refl
same_name_refl docker_proxy = refl
same_name_refl qemu = refl

task_spec-name {ℓ} :
    {Config : Type ℓ} (name : SupervisorTaskName) (task : ManagedTask Config)
    → (task_spec name task).name ≡ name
unfolding task_spec
task_spec-name name (embedded_composed_fs config) = refl
task_spec-name name (managed_vmnet_gateway config) = refl
task_spec-name name managed_docker_proxy = refl
task_spec-name name (managed_child_process process) = refl

module _ (watch : Watch) (laws : WatchLaws watch) where
  open watch use {Channel, channel, borrow, send}
  open laws use {live, channel-live, borrow-channel, send-live}

  abbrev Task : Type 0
  Task = SupervisorTaskState watch

  abbrev pub Absent : SupervisorTaskName → List Task → Type 0
  Absent name [] = Unit {0}
  Absent name (task ∷ tasks) = (same_name name task.spec.name ≡ false) × Absent name tasks

  -- No two tasks have the same name, and every status channel has a receiver.
  abbrev pub IsValid : List Task → Type 0
  IsValid [] = Unit {0}
  IsValid (task ∷ tasks) = Absent task.spec.name tasks × ((live task.status ≡ true) × IsValid tasks)

  Absent-append :
      (name : SupervisorTaskName) (done todo : List Task) (t : Task)
      → Absent name (done ++ t ∷ todo)
      → same_name name t.spec.name ≡ false
  Absent-append name [] todo t h = h.0
  Absent-append name (d ∷ done) todo t h = Absent-append name done todo t h.1

  pub task_status-IsValid :
      (done todo : List Task) (t : Task)
      → IsValid (done ++ t ∷ todo)
      → task_status watch (done ++ t ∷ todo) t.spec.name ≡ some (borrow t.status)
  unfolding task_status
  task_status-IsValid [] todo t h = rw (same_name_refl t.spec.name) refl
  task_status-IsValid (d ∷ done) todo t h =
      rw (Absent-append d.spec.name done todo t h.0) (task_status-IsValid done todo t h.1.1)

  pub IsValid-live :
      (done todo : List Task) (t : Task) → IsValid (done ++ t ∷ todo) → live t.status ≡ true
  IsValid-live [] todo t h = h.1.0
  IsValid-live (d ∷ done) todo t h = IsValid-live done todo t h.1.1

  Absent-set :
      (name : SupervisorTaskName) (done todo : List Task) (t t' : Task)
      → t'.spec ≡ t.spec
      → Absent name (done ++ t ∷ todo)
      → Absent name (done ++ t' ∷ todo)
  Absent-set name [] todo t t' e h = (rw e h.0, h.1)
  Absent-set name (d ∷ done) todo t t' e h = (h.0, Absent-set name done todo t t' e h.1)

  -- A task keeps its name when its status is set.
  pub IsValid-set :
      (done todo : List Task) (t t' : Task)
      → t'.spec ≡ t.spec
      → live t'.status ≡ true
      → IsValid (done ++ t ∷ todo)
      → IsValid (done ++ t' ∷ todo)
  IsValid-set [] todo t t' e l h = (rw e h.0, (l, h.1.1))
  IsValid-set (d ∷ done) todo t t' e l h =
      (Absent-set d.spec.name done todo t t' e h.0, (h.1.0, IsValid-set done todo t t' e l h.1.1))

  module _ {ℓ} {Config : Type ℓ} where
    specs-IsValid :
        (proxy : Option (ManagedTask Config)) (a b c q : ManagedTask Config)
        → IsValid (
            map (planned_task watch) (
              push_some proxy
                (task_spec composed_fs a ∷ task_spec config_fs b ∷ task_spec vmnet_gateway c ∷ [])
              ++ task_spec qemu q ∷ []))
    specs-IsValid none a b c q =
        let l = channel-live planned in
        rw
          (
            task_spec-name composed_fs a,
            task_spec-name config_fs b,
            task_spec-name vmnet_gateway c,
            task_spec-name qemu q,
          )
          (
            (refl, (refl, (refl, tt))),
            (l, ((refl, (refl, tt)), (l, ((refl, tt), (l, (tt, (l, tt))))))),
          )
    specs-IsValid (some p) a b c q =
        let l = channel-live planned in
        rw
          (
            task_spec-name composed_fs a,
            task_spec-name config_fs b,
            task_spec-name vmnet_gateway c,
            task_spec-name docker_proxy p,
            task_spec-name qemu q,
          )
          (
            (refl, (refl, (refl, (refl, tt)))),
            (
              l,
              (
                (refl, (refl, (refl, tt))),
                (l, ((refl, (refl, tt)), (l, ((refl, tt), (l, (tt, (l, tt))))))),
              ),
            ),
          )

    -- For watch channels with the laws that tokio documents, the tasks of a new supervisor have
    -- different names, and receivers.
    pub new-IsValid : (plan : SupervisorPlan Config) → IsValid (new watch Config plan).tasks
    unfolding new task_specs_from_plan
    new-IsValid plan =
        specs-IsValid plan.docker_proxy plan.composed_fs plan.config_fs plan.vmnet plan.qemu

  -- For watch channels with the laws that tokio documents, and tasks with different names and
  -- receivers: setting a status through a controller succeeds, the task has the status then, and
  -- the tasks still have different names and receivers.
  pub set_status-IsValid :
      (done todo : List Task) (task : Task) (status : SupervisorTaskStatus)
      → IsValid (done ++ task ∷ todo)
      → (task' : Task) × ((set_status watch task status ≡ some task')
          × ((task_status watch (done ++ task' ∷ todo) task.spec.name ≡ some status)
              × IsValid (done ++ task' ∷ todo)))
  set_status-IsValid done todo task status v =
      let (c, (sent, (now, l))) = send-live status task.status (IsValid-live done todo task v) in
      let task' : Task = record { spec = task.spec; status = c } in
      let v' : IsValid (done ++ task' ∷ todo) = IsValid-set done todo task task' refl l v in
      (
        task',
        (rw (set_status, sent) refl, (task_status-IsValid done todo task' v' ∙ ap some now, v')),
      )
