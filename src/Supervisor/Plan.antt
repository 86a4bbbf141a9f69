-- ===== src/Supervisor/Plan.antt =====
-- The tasks of vm-frontend/src/supervisor.rs, their statuses, and the specs made from the plan of
-- vm-frontend/src/lib.rs.
use wrapper.Common.{ℕ, Bool, true, false, Option, none, some, List, [], ◌∷◌, ◌++◌, String, ◌==◌}

pub data SupervisorTaskName : Type 0 where
  composed_fs config_fs vmnet_gateway docker_proxy qemu : SupervisorTaskName

abbrev name_code : SupervisorTaskName → ℕ
name_code composed_fs = 0
name_code config_fs = 1
name_code vmnet_gateway = 2
name_code docker_proxy = 3
name_code qemu = 4

-- The derived `==`.
abbrev pub same_name : SupervisorTaskName → SupervisorTaskName → Bool
same_name a b = name_code a == name_code b

pub data SupervisorTaskKind : Type 0 where
  blocking_composed_fs blocking_config_fs vmnet async_docker_proxy child_process :
      SupervisorTaskKind

pub record SupervisorTaskSpec : Type 0 where
  pub name : SupervisorTaskName
  pub kind : SupervisorTaskKind

pub data SupervisorTaskStatus : Type 0 where
  planned starting ready finished : SupervisorTaskStatus
  task_failed : String → SupervisorTaskStatus
  cancelled : String → SupervisorTaskStatus

pub record SupervisorTaskResult : Type 0 where
  pub name : SupervisorTaskName
  pub status : SupervisorTaskStatus

pub data SupervisorShutdown : Type 0 where
  running : SupervisorShutdown
  requested : String → SupervisorShutdown

pub record SupervisorRunSummary : Type 0 where
  pub shutdown : SupervisorShutdown
  pub task_results : List SupervisorTaskResult

pub data SupervisorError : Type 0 where
  shutdown_channel_closed : SupervisorError
  task_status_channel_closed : SupervisorTaskName → SupervisorError

abbrev pub is_terminal : SupervisorTaskStatus → Bool
is_terminal finished = true
is_terminal (task_failed cause) = true
is_terminal (cancelled reason) = true
is_terminal planned = false
is_terminal starting = false
is_terminal ready = false

abbrev pub is_requested : SupervisorShutdown → Bool
is_requested running = false
is_requested (requested reason) = true

abbrev pub reason : SupervisorShutdown → Option String
reason running = none
reason (requested why) = some why

-- `lib.rs`.
pub record ServeConfig : Type 0 where
  pub manifest : String
  pub socket_path : String
  pub tag : String
  pub thread_pool_size : ℕ

pub record ProcessSpec : Type 0 where
  pub program : String
  pub args : List String
  pub stdout_log : String

-- `Config` is `VmnetRuntimeConfig`, which the supervisor only carries.
pub data ManagedTask {ℓ} (Config : Type ℓ) : Type ℓ where
  embedded_composed_fs : ServeConfig → ManagedTask Config
  managed_vmnet_gateway : Config → ManagedTask Config
  managed_docker_proxy : ManagedTask Config
  managed_child_process : ProcessSpec → ManagedTask Config

pub record SupervisorPlan {ℓ} (Config : Type ℓ) : Type ℓ where
  pub composed_fs : ManagedTask Config
  pub config_fs : ManagedTask Config
  pub vmnet : ManagedTask Config
  pub docker_proxy : Option (ManagedTask Config)
  pub qemu : ManagedTask Config
  pub state_path : String

abbrev pub embedded_kind : SupervisorTaskName → SupervisorTaskKind
embedded_kind config_fs = blocking_config_fs
embedded_kind _ = blocking_composed_fs

unfoldable pub task_spec {ℓ} :
    {Config : Type ℓ} → SupervisorTaskName → ManagedTask Config → SupervisorTaskSpec
task_spec name (embedded_composed_fs config) = record { name = name; kind = embedded_kind name }
task_spec name (managed_vmnet_gateway config) = record { name = name; kind = vmnet }
task_spec name managed_docker_proxy = record { name = name; kind = async_docker_proxy }
task_spec name (managed_child_process process) = record { name = name; kind = child_process }

abbrev pub push_some {ℓ} :
    {Config : Type ℓ}
    → Option (ManagedTask Config)
    → List SupervisorTaskSpec
    → List SupervisorTaskSpec
push_some none specs = specs
push_some (some proxy) specs = specs ++ task_spec docker_proxy proxy ∷ []

unfoldable pub task_specs_from_plan {ℓ} :
    {Config : Type ℓ} → SupervisorPlan Config → List SupervisorTaskSpec
unfolding task_spec
task_specs_from_plan plan =
    let specs =
      task_spec composed_fs plan.composed_fs
      ∷ task_spec config_fs plan.config_fs
      ∷ task_spec vmnet_gateway plan.vmnet
      ∷ [] in
    push_some plan.docker_proxy specs ++ task_spec qemu plan.qemu ∷ []
