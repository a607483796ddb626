-- ===== src/Simulator/Display/View.antt =====
-- cmd/simulator/ui.go, View: what is shown, without its layout. A colour stands for a style.
use cloud_credit_system.Common.{
  ℕ, zero, ◌+◌, ◌/◌, ◌%◌, Bool, true, false, Option, none, some, List, [], ◌∷◌, ltb, leb, nat_beq,
  if◌then◌else◌, length, get_elem?, map,
}
use mathlib.Core.Option
use cloud_credit_system.Common.Recent.{keep_last}
use cloud_credit_system.Common.Int.{ℤ, pos, negsuc, ltb_ℤ, leb_ℤ}
use cloud_credit_system.Domain.Resource.{
  ResourceType, cpu_hours, memory_gb_hours, active_nodes, other,
}
use cloud_credit_system.Simulator.Cluster.{TbStats}
use cloud_credit_system.Simulator.Display.{
  EventKind, heartbeat_ack, hard_limit, soft_limit, surge_pack, duplicate, Event, ClusterState,
  QuotaText, warning_text, exceeded_text, QuotaState, ServerStats, ScenarioStep, scenario,
  TenantUiState, Model,
}

pub data Colour : Type 0 where
  dim bold green yellow red blue : Colour

pub data Label : Type 0 where
  cpu_label memory_label nodes_label : Label
  own_name : ℕ → Label

unfoldable pub resource_label : ResourceType → Label
resource_label cpu_hours = cpu_label
resource_label memory_gb_hours = memory_label
resource_label active_nodes = nodes_label
resource_label (other n) = own_name n

-- A number as it is, or rounded to tenths of thousands or of millions.
pub data Shown : Type 0 where
  as_is thousands millions : ℤ → Shown

unfoldable pub fmt_num : ℤ → Shown
fmt_num n =
    if leb_ℤ (pos 1_000_000) n
    then millions n
    else if leb_ℤ (pos 1_000) n
    then thousands n
    else as_is n

-- A bar with its colour and its badge.
pub record QuotaRow : Type 0 where
  pub label : Label
  pub label_colour : Colour
  pub pct_colour : Colour
  pub badge : Option Colour
  pub pct : ℕ
  pub used : Shown
  pub limit : Shown

abbrev row : Colour → Colour → Option Colour → QuotaState → QuotaRow
row label_colour pct_colour badge q = record {
  label = resource_label q.resource;
  label_colour = label_colour;
  pct_colour = pct_colour;
  badge = badge;
  pct = q.pct;
  used = fmt_num q.used;
  limit = fmt_num q.limit;
}

abbrev coloured : QuotaText → QuotaState → QuotaRow
coloured exceeded_text = row red red (some red)
coloured warning_text = row yellow yellow (some yellow)
coloured _ = row bold green none

unfoldable pub quota_row : QuotaState → QuotaRow
quota_row q = coloured q.status q

unfoldable pub connected_count : List ClusterState → ℕ
connected_count [] = 0
connected_count (c ∷ cs) = let rest = connected_count cs in if c.connected then rest + 1 else rest

pub data Mark : Type 0 where
  past current ahead : Mark

-- The steps of the timeline, from the i-th.
unfoldable pub timeline : ℕ → ℕ → List ScenarioStep → List Mark
timeline step i [] = []
timeline step i (s ∷ rest) =
    let later = timeline step (i + 1) rest in
    (if ltb i step then past else if nat_beq i step then current else ahead) ∷ later

unfoldable pub event_colour : EventKind → Colour
event_colour hard_limit = red
event_colour soft_limit = yellow
event_colour surge_pack = green
event_colour duplicate = blue
event_colour heartbeat_ack = green
event_colour _ = dim

-- The loop from the end takes at most twenty events and puts each before those after it.
unfoldable pub render_event_log : List Event → List (Colour × Event)
render_event_log events = map (λ (e : Event). (event_colour e.kind, e)) (keep_last 20 events)

abbrev pub unless_zero : Colour → ℕ → Colour
unless_zero colour n = if ltb 0 n then colour else dim

-- The three numbers of TbStats, each with its colour.
unfoldable pub render_tb_stats : TbStats → List (Colour × ℕ)
render_tb_stats s =
    (green, s.transfers_total)
    ∷ (unless_zero red s.rejected, s.rejected)
    ∷ (unless_zero blue s.idempotent, s.idempotent)
    ∷ []

unfoldable pub total_tb_stats : List TenantUiState → TbStats
total_tb_stats [] = record { transfers_total = 0; rejected = 0; idempotent = 0 }
total_tb_stats (t ∷ ts) =
    let rest = total_tb_stats ts in
    record {
      transfers_total = t.tb_stats.transfers_total + rest.transfers_total;
      rejected = t.tb_stats.rejected + rest.rejected;
      idempotent = t.tb_stats.idempotent + rest.idempotent;
    }

unfoldable pub p99_colour : ℤ → Colour
p99_colour us = if ltb_ℤ (pos 50_000) us then red else if ltb_ℤ (pos 10_000) us then yellow else dim

-- From a minute on the uptime is minutes and seconds.
pub data Uptime : Type 0 where
  seconds : ℤ → Uptime
  minutes_seconds : ℕ → ℕ → Uptime

unfoldable pub uptime : ℤ → Uptime
uptime (negsuc n) = seconds (negsuc n)
uptime (pos n) = if leb 60 n then minutes_seconds (n / 60) (n % 60) else seconds (pos n)

pub record TenantPage : Type 0 where
  pub name : ℕ
  pub tier : ℕ
  pub connected : ℕ
  pub quotas : List QuotaRow
  pub marks : List Mark
  pub log : List (Colour × Event)
  pub tb_stats : List (Colour × ℕ)
  pub clusters : List ClusterState

pub record ServerPage : Type 0 where
  pub live : Bool
  pub uptime : Uptime
  pub p99 : Colour
  pub stats : ServerStats
  pub totals : List (Colour × ℕ)

pub data Body : Type 0 where
  tenant_body : TenantPage → Body
  server_body : ServerPage → Body

-- The minutes and seconds of the step, the names of the tabs with the one that is selected, and the body.
pub data Screen : Type 0 where
  loading : Screen
  page : ℕ → ℕ → List (ℕ × Bool) → Bool → Body → Screen

unfoldable pub tabs : ℕ → ℕ → List TenantUiState → List (ℕ × Bool)
tabs chosen i [] = []
tabs chosen i (t ∷ ts) = (t.name, nat_beq i chosen) ∷ tabs chosen (i + 1) ts

unfoldable pub tenant_page : ℕ → TenantUiState → TenantPage
tenant_page step t = record {
  name = t.name;
  tier = t.tier;
  connected = connected_count t.clusters;
  quotas = map quota_row t.quotas;
  marks = timeline step 0 scenario;
  log = render_event_log t.events;
  tb_stats = render_tb_stats t.tb_stats;
  clusters = t.clusters;
}

unfoldable pub server_page : Model → ServerPage
server_page m = record {
  live = m.server_stats.is_ok;
  uptime = uptime m.server_stats.uptime_s;
  p99 = p99_colour m.server_stats.signal_p99_us;
  stats = m.server_stats;
  totals = render_tb_stats (total_tb_stats m.tenants);
}

-- `m.tenants[m.selectedTenant]` panics out of range.
unfoldable pub body : Model → Option Body
body m =
    if nat_beq m.selected_tenant (length m.tenants)
    then some (server_body (server_page m))
    else Option.map (λ t. tenant_body (tenant_page m.current_step t))
        (get_elem? m.tenants m.selected_tenant)

abbrev in_page : Model → Body → Screen
in_page m b =
    let elapsed = m.elapsed / 1_000_000_000 in
    page (elapsed / 60) (elapsed % 60) (tabs m.selected_tenant 0 m.tenants)
      (nat_beq m.selected_tenant (length m.tenants)) b

abbrev is_zero : ℤ → Bool
is_zero (pos zero) = true
is_zero n = false

-- `none` is a panic.
unfoldable pub view : Model → Option Screen
view m = if is_zero m.width then some loading else Option.map (in_page m) (body m)
