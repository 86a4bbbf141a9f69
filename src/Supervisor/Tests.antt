-- ===== src/Supervisor/Tests.antt =====
-- Concrete supervisors for vm-frontend/src/supervisor.rs; a channel is its value and its count of
-- receivers.
use wrapper.Common.{
  ℕ, ◌≡◌, refl, true, none, some, List, [], ◌∷◌, map, ◌==◌, not, if◌then◌else◌, arith,
}
use wrapper.Supervisor.{
  SupervisorTaskStatus, planned, ready, finished, SupervisorShutdown, running, requested,
  ManagedTask, embedded_composed_fs, managed_vmnet_gateway, managed_child_process, SupervisorPlan,
  Watch, WatchLaws, SupervisorTaskState, stopped, run_until_shutdown, task_statuses,
  wait_for_shutdown, new, set_status, task_status, task_specs_from_plan, task_spec,
}
use wrapper.Supervisor.Invariant.{IsValid}
use wrapper.Supervisor.Shutdown.{ended_result, run_until_shutdown_lem}

record Cell : Type 0 where
  value : SupervisorTaskStatus
  receivers : ℕ

abbrev cells : Watch
cells = record {
  Channel = Cell;
  channel = λ s. record { value = s; receivers = 1 };
  borrow = λ c. c.value;
  send = λ s c. if c.receivers == 0 then none else some (record c { value = s });
}

send-live_cells :
    (s : SupervisorTaskStatus) (c : Cell)
    → not (c.receivers == 0) ≡ true
    → (c' : Cell) × ((cells.send s c ≡ some c')
        × ((c'.value ≡ s) × (not (c'.receivers == 0) ≡ true)))
send-live_cells s c h = (record c { value = s }, (ground arith, (refl, h)))

abbrev cells_laws : WatchLaws cells
cells_laws = record {
  live = λ c. not (c.receivers == 0);
  channel-live = λ s. refl;
  borrow-channel = λ s. refl;
  send-live = send-live_cells;
}

abbrev fs_task : ManagedTask ℕ
fs_task =
    embedded_composed_fs
      (record { manifest = "m"; socket_path = "s"; tag = "t"; thread_pool_size = 4 })

abbrev plan3 : SupervisorPlan ℕ
plan3 = record {
  composed_fs = fs_task;
  config_fs = fs_task;
  vmnet = managed_vmnet_gateway 0;
  docker_proxy = none;
  qemu = managed_child_process (record { program = "qemu"; args = []; stdout_log = "log" });
  state_path = "state";
}

abbrev fs_state : SupervisorTaskState cells
fs_state = record {
  spec = record {
    name = wrapper.Supervisor.composed_fs;
    kind = wrapper.Supervisor.blocking_composed_fs;
  };
  status = record { value = finished; receivers = 1 };
}

abbrev qemu_state : SupervisorTaskState cells
qemu_state = record {
  spec = record { name = wrapper.Supervisor.qemu; kind = wrapper.Supervisor.child_process };
  status = record { value = ready; receivers = 2 };
}

abbrev two_tasks : List (SupervisorTaskState cells)
two_tasks = fs_state ∷ qemu_state ∷ []

two_tasks-IsValid : IsValid cells cells_laws two_tasks
two_tasks-IsValid = ((refl, tt), (refl, (tt, (refl, tt))))

wait_running : wait_for_shutdown running (running ∷ requested "stop" ∷ []) ≡ some (requested "stop")
unfolding wait_for_shutdown
wait_running = refl

run_until_shutdown_lem_example :
    (after : List (SupervisorTaskState cells)) × ((run_until_shutdown cells running
          (running ∷ requested "stop" ∷ [])
          two_tasks
        ≡ (
          stopped (record {
            shutdown = requested "stop";
            task_results = map (ended_result cells cells_laws "stop") two_tasks;
          }),
          after,
        ))
      × (task_statuses cells after ≡ map (ended_result cells cells_laws "stop") two_tasks))
run_until_shutdown_lem_example =
    run_until_shutdown_lem cells cells_laws "stop" running (running ∷ requested "stop" ∷ [])
      two_tasks two_tasks-IsValid wait_running
