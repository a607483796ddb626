-- ===== src/Simulator/Display/InRange.antt =====
-- The terminal interface never indexes out of range.
use cloud_credit_system.Common.{
  ℕ, zero, suc, ◌-◌, ◌≤◌, ◌<◌, ◌≡◌, refl, inl, inr, Bool, true, false, ◌&&◌, Option, some, List, [],
  ◌∷◌, ◌++◌, arith, All, ltb, leb, nat_beq, if◌then◌else◌, length, length-modify, get_elem?, modify,
  Bool-cases,
}
use mathlib.Core.Option
use cloud_credit_system.Common.Recent.{length-keep_last}
use cloud_credit_system.Common.Int.{ℤ, pos, negsuc}
use cloud_credit_system.Simulator.Display.{
  ScenarioStep, scenario, TenantUiState, Model, new_tenant_ui_state, initial_model, Key, quit_key,
  space_key, tab_key, next_key, restart_key, other_key, Msg, key_msg, window_size_msg, tick_msg,
  step_advance_msg, event_msg, quota_update_msg, cluster_update_msg, cluster_heartbeat_msg,
  tb_stats_update_msg, server_stats_msg, Cmd, tick_cmd, go_to, next_step, on_key, tick_in, on_tick,
  at_tenant, log_event, update, run,
}
use cloud_credit_system.Simulator.Display.View.{Screen, loading, Body, body, view}

abbrev pub HasShortLog : TenantUiState → Type 0
HasShortLog t = length t.events ≤ 50

-- The step is one of the scenario, the selected tab is a tenant or the server, the logs are bounded, and the
-- clusters are paused exactly when the interface is.
pub record InRange (m : Model) : Type 0 where
  pub step : m.current_step < 7
  pub selected : m.selected_tenant ≤ length m.tenants
  pub logs : All HasShortLog m.tenants
  pub same_pause : m.driver_paused ≡ m.paused

-- A message that sets the step names one of the scenario.
abbrev pub IsProper : Msg → Type 0
IsProper (step_advance_msg step) = step < 7
IsProper msg = Unit

get_elem?-there :
    {A : Type 0} (xs : List A) (i : ℕ) → i < length xs → (x : A) × (get_elem? xs i ≡ some x)
get_elem?-there [] i h = absurd (omega (arith, h))
get_elem?-there (x ∷ xs) zero h = (x, refl)
get_elem?-there (x ∷ xs) (suc i) h = get_elem?-there xs i (omega (arith, h))

modify-All :
    {A : Type 0} (P : A → Type 0) (xs : List A) (i : ℕ) (f : A → A)
    → ((x : A) → P x → P (f x))
    → All P xs
    → All P (modify xs i f)
modify-All P [] i f keeps h = tt
modify-All P (x ∷ xs) zero f keeps (first, h) = (keeps x first, h)
modify-All P (x ∷ xs) (suc i) f keeps (first, h) = (first, modify-All P xs i f keeps h)

at_tenant-InRange :
    (i : ℤ) (change : TenantUiState → TenantUiState) (m : Model)
    → ((t : TenantUiState) → HasShortLog t → HasShortLog (change t))
    → InRange m
    → InRange (at_tenant i change m)
unfolding at_tenant
at_tenant-InRange (negsuc n) change m keeps h = h
at_tenant-InRange (pos n) change m keeps h = record {
  step = h.step;
  selected = omega (arith, h.selected, length-modify m.tenants n change);
  logs = modify-All HasShortLog m.tenants n change keeps h.logs;
  same_pause = h.same_pause;
}

go_to-InRange : (now step : ℕ) (m : Model) → step < 7 → InRange m → InRange (go_to now step m).0
unfolding go_to
go_to-InRange now step m proper h = record {
  step = proper;
  selected = h.selected;
  logs = h.logs;
  same_pause = h.same_pause;
}

next_step_proper : (current : ℕ) → current < 7 → next_step current < 7
unfolding next_step
next_step_proper current h = ground (arith, h)

on_key-InRange : (now : ℕ) (k : Key) (m : Model) → InRange m → InRange (on_key now k m).0
unfolding on_key
on_key-InRange now quit_key m h = h
on_key-InRange now space_key m h = record {
  step = h.step;
  selected = h.selected;
  logs = h.logs;
  same_pause = refl;
}
on_key-InRange now tab_key m h = record {
  step = h.step;
  selected = omega arith;
  logs = h.logs;
  same_pause = h.same_pause;
}
on_key-InRange now next_key m h =
    go_to-InRange now (next_step m.current_step) m (next_step_proper m.current_step h.step) h
on_key-InRange now restart_key m h = go_to-InRange now 0 m (omega arith) h
on_key-InRange now other_key m h = h

tick_in-InRange :
    (now : ℕ) (m : Model) (step : ScenarioStep) → InRange m → InRange (tick_in now m step).0
unfolding tick_in
tick_in-InRange now m step h =
    elim (Bool-cases (
      (step.auto_advance && (ltb 0 step.duration && leb step.duration (now - m.step_start)))
      && ltb m.current_step 6)) [
        | inl on ↦ rw on (record {
          step = ground (arith, on);
          selected = h.selected;
          logs = h.logs;
          same_pause = h.same_pause;
        })
        | inr off ↦ rw off (record {
          step = h.step;
          selected = h.selected;
          logs = h.logs;
          same_pause = h.same_pause;
        })
      ]

-- An outcome that is no panic and stays in range.
abbrev GoesOn : Option (Model × List Cmd) → Type 0
GoesOn o = (m' : Model) × (cs : List Cmd) × (o ≡ some (m', cs)) × InRange m'

tick_if :
    (paused : Bool) (now : ℕ) (m : Model)
    → InRange m
    → GoesOn (
        if paused
        then some (m, tick_cmd ∷ [])
        else Option.map (tick_in now m) (get_elem? scenario m.current_step))
tick_if true now m h = (m, _, refl, h)
tick_if false now m h =
    let (step, found) = get_elem?-there scenario m.current_step h.step in
    rw found (_, _, refl, tick_in-InRange now m step h)

update-GoesOn :
    (cluster_name : ℕ → ℕ) (now : ℕ) (msg : Msg) (m : Model)
    → IsProper msg
    → InRange m
    → GoesOn (update cluster_name now msg m)
unfolding update log_event go_to on_tick
update-GoesOn name now (key_msg k) m proper h = (_, _, refl, on_key-InRange now k m h)
update-GoesOn name now (window_size_msg width height) m proper h = (
  _,
  _,
  refl,
  record { step = h.step; selected = h.selected; logs = h.logs; same_pause = h.same_pause },
)
update-GoesOn name now tick_msg m proper h = tick_if m.paused now m h
update-GoesOn name now (step_advance_msg step) m proper h =
    (_, _, refl, go_to-InRange now step m proper h)
update-GoesOn name now (event_msg e) m proper h = (
  _,
  _,
  refl,
  at_tenant-InRange e.tenant_idx _ m (λ t short. length-keep_last 50 (t.events ++ (e ∷ []))) h,
)
update-GoesOn name now (quota_update_msg i quotas) m proper h =
    (_, _, refl, at_tenant-InRange i _ m (λ t short. short) h)
update-GoesOn name now (cluster_update_msg i clusters) m proper h =
    (_, _, refl, at_tenant-InRange i _ m (λ t short. short) h)
update-GoesOn name now (cluster_heartbeat_msg i label seq ack seen) m proper h =
    (_, _, refl, at_tenant-InRange i _ m (λ t short. short) h)
update-GoesOn name now (tb_stats_update_msg i stats) m proper h =
    (_, _, refl, at_tenant-InRange i _ m (λ t short. short) h)
update-GoesOn name now (server_stats_msg stats) m proper h = (
  _,
  _,
  refl,
  record { step = h.step; selected = h.selected; logs = h.logs; same_pause = h.same_pause },
)

run_from :
    (cluster_name : ℕ → ℕ) (msgs : List (ℕ × Msg)) (m : Model)
    → All (λ x. IsProper x.1) msgs
    → InRange m
    → (m' : Model) × (run cluster_name msgs m ≡ some m') × InRange m'
unfolding run
run_from name [] m proper h = (m, refl, h)
run_from name ((now, msg) ∷ rest) m (proper, later) h =
    let (m1, cs, did, h1) = update-GoesOn name now msg m proper h in
    let (m2, ran, h2) = run_from name rest m1 later h1 in (m2, rw did ran, h2)

body_shows : (m : Model) → InRange m → (b : Body) × (body m ≡ some b)
unfolding body
body_shows m h = elim (Bool-cases (nat_beq m.selected_tenant (length m.tenants))) [
  | inl server ↦ rw server (_, refl)
  | inr tenant ↦
      let (t, found) =
        get_elem?-there m.tenants m.selected_tenant (ground (arith, tenant, h.selected)) in
      rw (tenant, found) (_, refl)
]

shown_if :
    (hidden : Bool) (in_page : Body → Screen) (o : Option Body)
    → ((b : Body) × (o ≡ some b))
    → (screen : Screen) × ((if hidden then some loading else Option.map in_page o) ≡ some screen)
shown_if true in_page o found = (loading, refl)
shown_if false in_page o (b, found) = (in_page b, rw found refl)

view_shows : (m : Model) → InRange m → (screen : Screen) × (view m ≡ some screen)
unfolding view
view_shows m h = shown_if _ _ (body m) (body_shows m h)

initial-InRange :
    (acme pro globex starter now : ℕ) → InRange (initial_model acme pro globex starter now)
unfolding initial_model new_tenant_ui_state
initial-InRange acme pro globex starter now = record {
  step = omega arith;
  selected = omega arith;
  logs = (omega arith, (omega arith, tt));
  same_pause = refl;
}

-- Sessions from the start.
pub runs-InRange :
    (cluster_name : ℕ → ℕ) (acme pro globex starter now : ℕ) (msgs : List (ℕ × Msg))
    → All (λ x. IsProper x.1) msgs
    → (m : Model) × (run cluster_name msgs (initial_model acme pro globex starter now) ≡ some m)
      × InRange m
      × ((screen : Screen) × (view m ≡ some screen))
runs-InRange name acme pro globex starter now msgs proper =
    let (m, ran, h) =
      run_from name msgs (initial_model acme pro globex starter now) proper
        (initial-InRange acme pro globex starter now) in
    (m, ran, h, view_shows m h)
