-- ===== src/Accounting/Workflow/Interleaved/Counted.antt =====
-- What the interleaved workflow counts: the batches whose submission succeeds, and how a batch that waits
-- comes to be one of them.
use cloud_credit_system.Common.{
  ℕ, true, false, ◌≡◌, refl, sym, ap, subst, ◌∙◌, inl, inr, some, List, [], ◌∷◌, ◌++◌, arith,
  Bool-cases, ltb, length,
}
use mathlib.Core.List.{append-nil}
use cloud_credit_system.Accounting.Signals.{HeartbeatSignal, TbBatchResult}
use cloud_credit_system.Accounting.Workflow.State.{TenantAccountingInput, absorb, start, carry}
use cloud_credit_system.Accounting.Workflow.Interleaved.{
  Caller, threshold, timer_callback, last_flush, selecting, submitting, drop_batch, Machine,
  end_flush, on_continue, begin_flush, on_timer, on_submitted, on_projected, timer_step,
  submitted_step, projected_step, Reach, next, Steps, stay, step,
}
use cloud_credit_system.Accounting.Workflow.Interleaved.Invariant.{
  settled_in, counted_in, counted_in-append, in_flight, MainLoop-cases, Reach-IsKept,
}

-- Whatever the order of the transitions, the heartbeats taken in are those of the batches that were counted or
-- that a continuation as new dropped, in the same order, followed by those that wait in CurBatch; and
-- the heartbeats of a submission under way are all of CurBatch, while nothing waits in it during the
-- activities after a submission. So each heartbeat taken in is counted at most once, and is counted,
-- dropped or waiting.
pub accepted-eq-settled-append :
    {i : TenantAccountingInput} {m : Machine}
    → Reach i m
    → (m.accepted ≡ settled_in m.settled ++ m.state.cur_batch)
      × (in_flight m.main m.state.cur_batch ≡ m.state.cur_batch)
accepted-eq-settled-append r = let k = Reach-IsKept r in (k.kept, k.same)

-- Transitions lead from `m` to `m'`, which is at its selector with nothing left to count: all that
-- waited has been counted, and nothing else was taken in.
pub record IsDrained (m m' : Machine) : Type 0 where
  pub reached : Steps m m'
  pub at_selector : m'.main ≡ selecting
  pub no_batch : m'.state.cur_batch ≡ []
  pub all_counted : counted_in m'.settled ≡ counted_in m.settled ++ m.state.cur_batch
  pub same_accepted : m'.accepted ≡ m.accepted

-- The end of a flush whose batch is empty.
end_flush-IsDrained :
    {m : Machine} (m' : Machine) (who : Caller)
    → Steps m (end_flush who m')
    → m'.state.cur_batch ≡ []
    → counted_in m'.settled ≡ counted_in m.settled ++ m.state.cur_batch
    → m'.accepted ≡ m.accepted
    → IsDrained m (end_flush who m')
unfolding end_flush on_continue start carry
end_flush-IsDrained m' threshold r empty all same = record {
  reached = r;
  at_selector = refl;
  no_batch = empty;
  all_counted = all;
  same_accepted = same;
}
end_flush-IsDrained m' timer_callback r empty all same = record {
  reached = r;
  at_selector = refl;
  no_batch = empty;
  all_counted = all;
  same_accepted = same;
}
end_flush-IsDrained m' last_flush r empty all same = record {
  reached = r;
  at_selector = refl;
  no_batch = refl;
  all_counted =
      ap (λ (hbs : List HeartbeatSignal). counted_in (drop_batch hbs m'.settled)) empty ∙ all;
  same_accepted = same;
}

-- The machine after its submission has succeeded and its projection has ended.
unfoldable pub finished : List HeartbeatSignal → Caller → TbBatchResult → Machine → Machine
finished hbs who result m = on_projected who (on_submitted hbs who (some result) m)

finished-IsDrained :
    {i : TenantAccountingInput} {m0 m : Machine} (n : ℕ) (hbs : List HeartbeatSignal) (who : Caller)
    (result : TbBatchResult)
    → Reach i m
    → m.main ≡ submitting n hbs who
    → Steps m0 m
    → m.settled ≡ m0.settled
    → m.state.cur_batch ≡ m0.state.cur_batch
    → m.accepted ≡ m0.accepted
    → IsDrained m0 (finished hbs who result m)
unfolding finished on_submitted on_projected absorb
finished-IsDrained {m0 = m0} {m = m} n hbs who result r e steps settled batch accepted =
    let all_of_it : hbs ≡ m.state.cur_batch = ground (arith, (Reach-IsKept r).same) in
    end_flush-IsDrained (on_submitted hbs who (some result) m) who
      (step (step steps (submitted_step n hbs who (some result) m e)) (projected_step who _ refl))
      refl (counted_in-append m.settled hbs ∙ cc (settled, batch, all_of_it)) accepted

length-zero : {hbs : List HeartbeatSignal} → ltb 0 (length hbs) ≡ false → hbs ≡ []
length-zero {hbs = []} h = refl
length-zero {hbs = hb ∷ hbs} h = ground arith

empty-IsDrained : {m : Machine} → m.main ≡ selecting → m.state.cur_batch ≡ [] → IsDrained m m
empty-IsDrained {m} e empty = record {
  reached = stay;
  at_selector = e;
  no_batch = empty;
  all_counted = rw empty (sym (append-nil (counted_in m.settled)));
  same_accepted = refl;
}

timer-begin_flush :
    (m : Machine)
    → ltb 0 (length m.state.cur_batch) ≡ true
    → on_timer m ≡ begin_flush timer_callback m
unfolding on_timer
timer-begin_flush m busy = rw busy

drains_at_selector :
    {i : TenantAccountingInput} {m : Machine} (result : TbBatchResult)
    → Reach i m
    → m.main ≡ selecting
    → (m' : Machine) × IsDrained m m'
unfolding begin_flush
drains_at_selector {i} {m} result r e = elim (Bool-cases (ltb 0 (length m.state.cur_batch))) [
  | inr idle ↦ (m, empty-IsDrained e (length-zero idle))
  | inl busy ↦
      let same = timer-begin_flush m busy in
      let r' : Reach i (begin_flush timer_callback m) =
        subst (λ k. Reach i k) same (next r (timer_step m e)) in
      let steps : Steps m (begin_flush timer_callback m) =
        subst (λ k. Steps m k) same (step stay (timer_step m e)) in
      (_, finished-IsDrained _ m.state.cur_batch timer_callback result r' refl steps refl refl refl)
]

-- From any machine that can be reached, waiting for whatever it may, transitions lead on (the timer, a
-- submission that succeeds, and the end of its projection, where they are needed) to a machine at its
-- selector with an empty batch, which has counted all that waited, in order, and has taken in nothing
-- more: no heartbeat is stuck.
pub drains :
    {i : TenantAccountingInput} {m : Machine} (result : TbBatchResult)
    → Reach i m
    → (m' : Machine) × IsDrained m m'
unfolding on_projected
drains {i} {m} result r = elim (MainLoop-cases m.main) [
  | inl e ↦ drains_at_selector result r e
  | inr (inl (n, hbs, who, e)) ↦
      (finished hbs who result m, finished-IsDrained n hbs who result r e stay refl refl refl)
  | inr (inr (who, e)) ↦
      let empty : m.state.cur_batch ≡ [] = ground (arith, (Reach-IsKept r).same) in
      (
        end_flush who m,
        end_flush-IsDrained m who (step stay (projected_step who m e)) empty
            (rw empty (sym (append-nil (counted_in m.settled)))) refl,
      )
]
