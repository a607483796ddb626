-- ===== src/Simulator/Display.antt =====
-- cmd/simulator/ui.go, Model: the state of the terminal interface and Update. Texts are numbers, except for
-- the names of resources; so are floating-point values, which nothing here computes with. Left out are the
-- widgets of third-party libraries: the progress bars and the scrolling of the event log.
pub mod View
pub mod InRange
pub mod Log
use cloud_credit_system.Common.{
  ℕ, zero, suc, ◌+◌, ◌-◌, ◌*◌, ◌%◌, Bool, true, false, not, ◌&&◌, Option, none, some, List, [], ◌∷◌,
  ◌++◌, ltb, leb, nat_beq, if◌then◌else◌, length, get_elem?, modify, map,
}
use mathlib.Core.Option
use cloud_credit_system.Common.Recent.{keep_last}
use cloud_credit_system.Common.Int.{ℤ, pos, negsuc}
use cloud_credit_system.Domain.Resource.{ResourceType, cpu_hours, memory_gb_hours, active_nodes}
use cloud_credit_system.Simulator.Cluster.{TbStats}

-- cmd/simulator/scenario.go
pub data EventKind : Type 0 where
  heartbeat_ack usage_debit hard_limit soft_limit surge_pack duplicate info : EventKind

pub record Event : Type 0 where
  pub timestamp : ℕ
  pub kind : EventKind
  pub message : ℕ
  pub tenant_idx : ℤ

pub record ClusterState : Type 0 where
  pub name : ℕ
  pub region : ℕ
  pub speed : ℕ
  pub connected : Bool
  pub seq : ℕ
  pub ack_seq : ℕ
  pub rate_desc : ℕ
  pub last_seen : Option ℕ

-- `Status` of a quota: "warning", "exceeded", or another text.
pub data QuotaText : Type 0 where
  warning_text exceeded_text plain_text : QuotaText

pub record QuotaState : Type 0 where
  pub resource : ResourceType
  pub used : ℤ
  pub limit : ℤ
  pub available : ℤ
  pub pct : ℕ
  pub status : QuotaText

-- The metrics of `/debug/stats` that are whole numbers.
pub record ServerStats : Type 0 where
  pub goroutines : ℤ
  pub gc_runs : ℕ
  pub gc_pause_us : ℕ
  pub uptime_s : ℤ
  pub active_streams : ℤ
  pub msg_total : ℕ
  pub signal_p50_us : ℤ
  pub signal_p99_us : ℤ
  pub is_ok : Bool

-- A step of the scenario, its texts left out; the duration in nanoseconds.
pub record ScenarioStep : Type 0 where
  pub auto_advance : Bool
  pub duration : ℕ

abbrev pub step_exhaust_number : ℕ
step_exhaust_number = 3

abbrev automatic : ScenarioStep
automatic = record { auto_advance = true; duration = 3 * 1_000_000_000 }

abbrev by_key : ScenarioStep
by_key = record { auto_advance = false; duration = 0 }

abbrev pub scenario : List ScenarioStep
scenario = automatic ∷ automatic ∷ by_key ∷ by_key ∷ by_key ∷ by_key ∷ by_key ∷ []

pub record TenantUiState : Type 0 where
  pub name : ℕ
  pub tier : ℕ
  pub quotas : List QuotaState
  pub clusters : List ClusterState
  pub tb_stats : TbStats
  pub events : List Event

-- `driver_paused` is the flag of the scenario driver, which the clusters read.
pub record Model : Type 0 where
  pub width : ℤ
  pub height : ℤ
  pub current_step : ℕ
  pub step_start : ℕ
  pub paused : Bool
  pub elapsed : ℕ
  pub tenants : List TenantUiState
  pub selected_tenant : ℕ
  pub server_stats : ServerStats
  pub driver_paused : Bool

abbrev pub unused : ResourceType → ℤ → QuotaState
unused r limit = record {
  resource = r;
  used = pos 0;
  limit = limit;
  available = pos 0;
  pct = 0;
  status = plain_text;
}

unfoldable pub new_tenant_ui_state : ℕ → ℕ → List QuotaState → TenantUiState
new_tenant_ui_state name tier quotas = record {
  name = name;
  tier = tier;
  quotas = quotas;
  clusters = [];
  tb_stats = record { transfers_total = 0; rejected = 0; idempotent = 0 };
  events = [];
}

-- The names and tiers of the two tenants are arguments.
unfoldable pub initial_model : (acme pro globex starter now : ℕ) → Model
initial_model acme pro globex starter now = record {
  width = pos 0;
  height = pos 0;
  current_step = 0;
  step_start = now;
  paused = false;
  elapsed = 0;
  tenants =
      new_tenant_ui_state acme pro (
        unused cpu_hours (pos 1_500_000)
        ∷ unused memory_gb_hours (pos 1_000_000)
        ∷ unused active_nodes (pos 20)
        ∷ [])
      ∷ new_tenant_ui_state globex starter (
          unused cpu_hours (pos 500_000)
          ∷ unused memory_gb_hours (pos 500_000)
          ∷ unused active_nodes (pos 10)
          ∷ [])
      ∷ [];
  selected_tenant = 0;
  server_stats = record {
    goroutines = pos 0;
    gc_runs = 0;
    gc_pause_us = 0;
    uptime_s = pos 0;
    active_streams = pos 0;
    msg_total = 0;
    signal_p50_us = pos 0;
    signal_p99_us = pos 0;
    is_ok = false;
  };
  driver_paused = false;
}

pub data Key : Type 0 where
  quit_key space_key tab_key next_key restart_key other_key : Key

-- The messages of the program; steps are not negative.
pub data Msg : Type 0 where
  key_msg : Key → Msg
  window_size_msg : ℤ → ℤ → Msg
  tick_msg : Msg
  step_advance_msg : ℕ → Msg
  event_msg : Event → Msg
  quota_update_msg : ℤ → List QuotaState → Msg
  cluster_update_msg : ℤ → List ClusterState → Msg
  cluster_heartbeat_msg : ℤ → ℕ → ℕ → ℕ → ℕ → Msg
  tb_stats_update_msg : ℤ → TbStats → Msg
  server_stats_msg : ServerStats → Msg

-- What Update starts: `step_cmd` runs a step of the scenario.
pub data Cmd : Type 0 where
  quit_cmd tick_cmd poll_cmd : Cmd
  step_cmd : ℕ → Cmd

unfoldable pub go_to : ℕ → ℕ → Model → Model × List Cmd
go_to now step m = (record m { current_step = step; step_start = now }, step_cmd step ∷ [])

unfoldable pub next_step : ℕ → ℕ
next_step current = if leb (length scenario - 1) current then step_exhaust_number else current + 1

unfoldable pub on_key : ℕ → Key → Model → Model × List Cmd
on_key now quit_key m = (m, quit_cmd ∷ [])
on_key now space_key m = (record m { paused = not m.paused; driver_paused = not m.paused }, [])
on_key now tab_key m =
    (record m { selected_tenant = (m.selected_tenant + 1) % (length m.tenants + 1) }, [])
on_key now next_key m = go_to now (next_step m.current_step) m
on_key now restart_key m = go_to now 0 m
on_key now other_key m = (m, [])

-- A tick of a model that is not paused, in its step. The clock does not run backwards.
unfoldable pub tick_in : ℕ → Model → ScenarioStep → Model × List Cmd
tick_in now m step =
    let m' = record m { elapsed = now - m.step_start } in
    let advances = step.auto_advance && (ltb 0 step.duration && leb step.duration m'.elapsed) in
    if advances && ltb m.current_step (length scenario - 1)
    then (
      record m' { current_step = m.current_step + 1; step_start = now },
      step_cmd (m.current_step + 1) ∷ tick_cmd ∷ [],
    )
    else (m', tick_cmd ∷ [])

-- `Scenario[m.currentStep]` panics out of range.
unfoldable pub on_tick : ℕ → Model → Option (Model × List Cmd)
on_tick now m =
    if m.paused
    then some (m, tick_cmd ∷ [])
    else Option.map (tick_in now m) (get_elem? scenario m.current_step)

-- A message for a tenant that is not there is ignored.
unfoldable pub at_tenant : ℤ → (TenantUiState → TenantUiState) → Model → Model
at_tenant (negsuc n) change m = m
at_tenant (pos n) change m = record m { tenants = modify m.tenants n change }

unfoldable pub log_event : Event → TenantUiState → TenantUiState
log_event e t = record t { events = keep_last 50 (t.events ++ (e ∷ [])) }

abbrev pub heard : ℕ → ℕ → ℕ → ℕ → ClusterState → ClusterState
heard name seq ack seen c =
    if nat_beq c.name name then record c { seq = seq; ack_seq = ack; last_seen = some seen } else c

-- A panic ends the program.
abbrev pub go_on : Option (Model × List Cmd) → (Model → Option Model) → Option Model
go_on none rest = none
go_on (some (m, commands)) rest = rest m

-- `cluster_name` is the text "Cluster " before a label.
module _ (cluster_name : ℕ → ℕ) where
  -- Update at the time `now`; `none` is a panic.
  unfoldable pub update : ℕ → Msg → Model → Option (Model × List Cmd)
  update now (key_msg k) m = some (on_key now k m)
  update now (window_size_msg width height) m =
      some (record m { width = width; height = height }, [])
  update now tick_msg m = on_tick now m
  update now (step_advance_msg step) m =
      some (record m { current_step = step; step_start = now }, [])
  update now (event_msg e) m = some (at_tenant e.tenant_idx (log_event e) m, [])
  update now (quota_update_msg i quotas) m =
      some (at_tenant i (λ t. record t { quotas = quotas }) m, [])
  update now (cluster_update_msg i clusters) m =
      some (at_tenant i (λ t. record t { clusters = clusters }) m, [])
  update now (cluster_heartbeat_msg i label seq ack seen) m = some (
    at_tenant i
        (λ t. record t { clusters = map (heard (cluster_name label) seq ack seen) t.clusters }) m,
    [],
  )
  update now (tb_stats_update_msg i stats) m =
      some (at_tenant i (λ t. record t { tb_stats = stats }) m, [])
  update now (server_stats_msg stats) m = some (record m { server_stats = stats }, poll_cmd ∷ [])

  -- The messages of a session, each with its time, until a panic.
  unfoldable pub run : List (ℕ × Msg) → Model → Option Model
  run [] m = some m
  run ((now, msg) ∷ rest) m = go_on (update now msg m) (run rest)
