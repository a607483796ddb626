-- ===== src/Simulator/Display/Log.antt =====
-- The event logs of the terminal interface.
use cloud_credit_system.Common.{
  ℕ, zero, suc, ◌-◌, ◌<◌, ◌≡◌, refl, ap, ◌∙◌, inl, inr, Bool, true, false, ◌&&◌, Option, none, some,
  List, [], ◌∷◌, ◌++◌, arith, All, ltb, leb, nat_beq, if◌then◌else◌, get_elem?, modify, subst,
  Bool-cases,
}
use cloud_credit_system.Simulator.Display.View.{Screen, view}
use cloud_credit_system.Simulator.Display.InRange.{InRange, IsProper, runs-InRange}
use mathlib.Core.Option
use mathlib.Core.List.{append-nil, append_assoc}
use cloud_credit_system.Common.Recent.{keep_last, keep_last-append}
use cloud_credit_system.Common.Int.{ℤ, pos, negsuc}
use cloud_credit_system.Simulator.Display.{
  Event, ScenarioStep, scenario, TenantUiState, Model, Key, quit_key, space_key, tab_key, next_key,
  restart_key, other_key, Msg, key_msg, window_size_msg, tick_msg, step_advance_msg, event_msg,
  quota_update_msg, cluster_update_msg, cluster_heartbeat_msg, tb_stats_update_msg,
  server_stats_msg, Cmd, go_to, on_key, tick_in, on_tick, at_tenant, log_event, update, go_on, run,
  tick_cmd, initial_model, new_tenant_ui_state,
}

-- The log of the i-th tenant.
abbrev pub log_in : List TenantUiState → ℕ → Option (List Event)
log_in ts i = Option.map (λ (t : TenantUiState). t.events) (get_elem? ts i)

abbrev pub is_for : ℕ → ℤ → Bool
is_for i (pos n) = nat_beq n i
is_for i (negsuc n) = false

-- The events that a message has for the i-th tenant, and those of a session.
abbrev pub event_of : ℕ → Msg → List Event
event_of i (event_msg e) = if is_for i e.tenant_idx then e ∷ [] else []
event_of i msg = []

unfoldable pub logged : ℕ → List (ℕ × Msg) → List Event
logged i [] = []
logged i ((now, msg) ∷ rest) = event_of i msg ++ logged i rest

modify-log_in :
    (ts : List TenantUiState) (n i : ℕ) (change : TenantUiState → TenantUiState)
    → ((t : TenantUiState) → (change t).events ≡ t.events)
    → log_in (modify ts n change) i ≡ log_in ts i
modify-log_in [] n i change keeps = refl
modify-log_in (t ∷ ts) zero zero change keeps = ap some (keeps t)
modify-log_in (t ∷ ts) zero (suc i) change keeps = refl
modify-log_in (t ∷ ts) (suc n) zero change keeps = refl
modify-log_in (t ∷ ts) (suc n) (suc i) change keeps = modify-log_in ts n i change keeps

-- An event at a tenant's own index, and at another.
modify-logs :
    (ts : List TenantUiState) (i : ℕ) (e : Event) (all : List Event)
    → log_in ts i ≡ some (keep_last 50 all)
    → log_in (modify ts i (log_event e)) i ≡ some (keep_last 50 (all ++ (e ∷ [])))
unfolding log_event
modify-logs [] i e all h = absurd (cc h)
modify-logs (t ∷ ts) zero e all h =
    ap some (ap (λ events. keep_last 50 (events ++ (e ∷ []))) (cc h) ∙ keep_last-append 50 all e)
modify-logs (t ∷ ts) (suc i) e all h = modify-logs ts i e all h

modify-other :
    (ts : List TenantUiState) (n i : ℕ) (change : TenantUiState → TenantUiState)
    → nat_beq n i ≡ false
    → log_in (modify ts n change) i ≡ log_in ts i
modify-other [] n i change other = refl
modify-other (t ∷ ts) zero zero change other = absurd (ground (arith, other))
modify-other (t ∷ ts) zero (suc i) change other = refl
modify-other (t ∷ ts) (suc n) zero change other = refl
modify-other (t ∷ ts) (suc n) (suc i) change other =
    modify-other ts n i change (ground (arith, other))

module _ (i : ℕ) (m : Model) where
  at_tenant-log :
      (n : ℤ) (change : TenantUiState → TenantUiState)
      → ((t : TenantUiState) → (change t).events ≡ t.events)
      → log_in (at_tenant n change m).tenants i ≡ log_in m.tenants i
  unfolding at_tenant
  at_tenant-log (negsuc n) change keeps = refl
  at_tenant-log (pos n) change keeps = modify-log_in m.tenants n i change keeps

  event-log :
      (n : ℤ) (e : Event) (all : List Event)
      → log_in m.tenants i ≡ some (keep_last 50 all)
      → log_in (at_tenant n (log_event e) m).tenants i
        ≡ some (keep_last 50 (all ++ (if is_for i n then e ∷ [] else [])))
  unfolding at_tenant
  event-log (negsuc n) e all h = rw (append-nil all) h
  event-log (pos n) e all h = elim (Bool-cases (nat_beq n i)) [
    | inr other ↦ rw (other, append-nil all) (modify-other m.tenants n i (log_event e) other ∙ h)
    | inl same ↦ rw same (
        subst
          (λ k. log_in (modify m.tenants k (log_event e)) i ≡ some (keep_last 50 (all ++ (e ∷ []))))
          (ground (arith, same)) (modify-logs m.tenants i e all h))
  ]

  on_key-tenants : (now : ℕ) (k : Key) → (on_key now k m).0.tenants ≡ m.tenants
  unfolding on_key go_to
  on_key-tenants now quit_key = refl
  on_key-tenants now space_key = refl
  on_key-tenants now tab_key = refl
  on_key-tenants now next_key = refl
  on_key-tenants now restart_key = refl
  on_key-tenants now other_key = refl

  tick_in-tenants : (now : ℕ) (step : ScenarioStep) → (tick_in now m step).0.tenants ≡ m.tenants
  unfolding tick_in
  tick_in-tenants now step =
      elim (Bool-cases (
        (step.auto_advance && (ltb 0 step.duration && leb step.duration (now - m.step_start)))
        && ltb m.current_step 6)) [ inl on ↦ rw on refl | inr off ↦ rw off refl ]

-- The log is what remains of these events, unless there was a panic.
abbrev IsLog : ℕ → List Event → Model → Type 0
IsLog i all m = log_in m.tenants i ≡ some (keep_last 50 all)

abbrev LogAfter : ℕ → List Event → Option (Model × List Cmd) → Type 0
LogAfter i all none = Unit
LogAfter i all (some (m, cs)) = IsLog i all m

abbrev LogAtEnd : ℕ → List Event → Option Model → Type 0
LogAtEnd i all none = Unit
LogAtEnd i all (some m) = IsLog i all m

module _ (i : ℕ) (all : List Event) (m : Model) (h : IsLog i all m) where
  -- A model with the same tenants has the same log.
  same_tenants : (m' : Model) → m'.tenants ≡ m.tenants → IsLog i (all ++ []) m'
  same_tenants m' same = rw (append-nil all) (ap (λ ts. log_in ts i) same ∙ h)

  tick-LogAfter :
      (paused : Bool) (now : ℕ) (found : Option ScenarioStep)
      → LogAfter i
          (all ++ [])
          (if paused then some (m, tick_cmd ∷ []) else Option.map (tick_in now m) found)
  tick-LogAfter true now found = same_tenants m refl
  tick-LogAfter false now none = tt
  tick-LogAfter false now (some step) =
      same_tenants (tick_in now m step).0 (tick_in-tenants i m now step)

  same_events :
      (n : ℤ) (change : TenantUiState → TenantUiState)
      → ((t : TenantUiState) → (change t).events ≡ t.events)
      → IsLog i (all ++ []) (at_tenant n change m)
  same_events n change keeps = rw (append-nil all) (at_tenant-log i m n change keeps ∙ h)

  update-LogAfter :
      (cluster_name : ℕ → ℕ) (now : ℕ) (msg : Msg)
      → LogAfter i (all ++ event_of i msg) (update cluster_name now msg m)
  unfolding update on_tick
  update-LogAfter name now (key_msg k) = same_tenants (on_key now k m).0 (on_key-tenants i m now k)
  update-LogAfter name now (window_size_msg width height) =
      same_tenants (record m { width = width; height = height }) refl
  update-LogAfter name now tick_msg = tick-LogAfter m.paused now (get_elem? scenario m.current_step)
  update-LogAfter name now (step_advance_msg step) =
      same_tenants (record m { current_step = step; step_start = now }) refl
  update-LogAfter name now (event_msg e) = event-log i m e.tenant_idx e all h
  update-LogAfter name now (quota_update_msg n quotas) = same_events n _ (λ t. refl)
  update-LogAfter name now (cluster_update_msg n clusters) = same_events n _ (λ t. refl)
  update-LogAfter name now (cluster_heartbeat_msg n label seq ack seen) =
      same_events n _ (λ t. refl)
  update-LogAfter name now (tb_stats_update_msg n stats) = same_events n _ (λ t. refl)
  update-LogAfter name now (server_stats_msg stats) =
      same_tenants (record m { server_stats = stats }) refl

go_on-LogAtEnd :
    (i : ℕ) (all all' : List Event) (o : Option (Model × List Cmd)) (rest : Model → Option Model)
    → LogAfter i all o
    → ((m : Model) → IsLog i all m → LogAtEnd i all' (rest m))
    → LogAtEnd i all' (go_on o rest)
go_on-LogAtEnd i all all' none rest h later = tt
go_on-LogAtEnd i all all' (some (m, cs)) rest h later = later m h

run-LogAtEnd :
    (i : ℕ) (all : List Event) (m : Model) (cluster_name : ℕ → ℕ) (msgs : List (ℕ × Msg))
    → IsLog i all m
    → LogAtEnd i (all ++ logged i msgs) (run cluster_name msgs m)
unfolding run logged
run-LogAtEnd i all m name [] h = same_tenants i all m h m refl
run-LogAtEnd i all m name ((now, msg) ∷ rest) h =
    go_on-LogAtEnd i (all ++ event_of i msg) _ (update name now msg m) (run name rest)
      (update-LogAfter i all m h name now msg)
      (λ m' h'.
        subst (λ events. LogAtEnd i events (run name rest m'))
          (append_assoc all (event_of i msg) (logged i rest))
          (run-LogAtEnd i (all ++ event_of i msg) m' name rest h'))

start-IsLog :
    (acme pro globex starter now i : ℕ)
    → i < 2
    → IsLog i [] (initial_model acme pro globex starter now)
unfolding initial_model new_tenant_ui_state keep_last
start-IsLog acme pro globex starter now zero known = refl
start-IsLog acme pro globex starter now (suc zero) known = refl
start-IsLog acme pro globex starter now (suc (suc i)) known = absurd (omega (arith, known))

-- Whatever messages come, if none sets a step that the scenario lacks, the interface never panics: every
-- message is handled and the state afterwards can be shown. The step is in the scenario, each log has at
-- most 50 events, and the clusters are paused exactly when the interface is. The log of each of the two
-- tenants is the last 50 of all the events that came for it, in the order in which they came.
pub session_in_order :
    (cluster_name : ℕ → ℕ) (acme pro globex starter now : ℕ) (msgs : List (ℕ × Msg)) (i : ℕ)
    → i < 2
    → All (λ x. IsProper x.1) msgs
    → (m : Model) × (run cluster_name msgs (initial_model acme pro globex starter now) ≡ some m)
      × InRange m
      × ((screen : Screen) × (view m ≡ some screen))
      × (log_in m.tenants i ≡ some (keep_last 50 (logged i msgs)))
session_in_order name acme pro globex starter now msgs i known proper =
    let (m, ran, h, shown) = runs-InRange name acme pro globex starter now msgs proper in
    (
      m,
      ran,
      h,
      shown,
      subst (λ o. LogAtEnd i (logged i msgs) o) ran
          (run-LogAtEnd i [] (initial_model acme pro globex starter now) name msgs
            (start-IsLog acme pro globex starter now i known)),
    )
