-- ===== src/System/Attempts.antt =====
-- What a call with its retries leads to, from what its attempts do.
use cloud_credit_system.Common.{
  ℕ, zero, suc, ◌≡◌, refl, Bool, true, false, Option, none, some, arith, guarded, Result, ok, err,
}
use cloud_credit_system.Domain.Resource.{resource_key}
use cloud_credit_system.Db.Schema.{Database}
use cloud_credit_system.System.World.{
  Occasion, World, attempt, or_again, retry, value_of, done, succeeded,
}

module _ {S A : Type 0} (occasion : ℕ → Occasion)
    (activity : Occasion → World S → Option A × World S) (I J : S → Database → Type 0) where
  or_again_leads :
      (p : Option A × World S) (again : World S → Option A × World S) (a : A)
      → I p.1.store p.1.db
      → (p.0 ≡ some a → J p.1.store p.1.db)
      → ((w : World S) → I w.store w.db → (again w).0 ≡ some a → J (again w).1.store (again w).1.db)
      → (or_again p again).0 ≡ some a
      → J (or_again p again).1.store (or_again p again).1.db
  or_again_leads (some v, w) again a i now later success = now success
  or_again_leads (none, w) again a i now later success = later w i success

  -- If every attempt keeps `I`, and one that returns a value leads to `J`, then a call that returns a value
  -- leads to `J`.
  pub retry_leads :
      (a : A)
      → ((n : ℕ) (w : World S)
          → I w.store w.db
          → let (r, w') = activity (occasion n) w in I w'.store w'.db)
      → ((n : ℕ) (w : World S)
          → I w.store w.db
          → (activity (occasion n) w).0 ≡ some a
          → let (r, w') = activity (occasion n) w in J w'.store w'.db)
      → (left : ℕ) (w : World S) → I w.store w.db
      → (retry occasion left activity w).0 ≡ some a
      → let (r, w') = retry occasion left activity w in J w'.store w'.db
  unfolding retry
  retry_leads a keeps leads zero w i success = absurd (cc success)
  retry_leads a keeps leads (suc left) w i success =
      let o = occasion w.attempts in
      or_again_leads (attempt occasion activity w) (retry occasion left activity) a
        (keeps w.attempts w i) (λ e. leads w.attempts w i (guarded o.answered (activity o w).0 a e))
        (λ w1 i1 e. retry_leads a keeps leads left w1 i1 e) success

pub value_ok : {E A : Type 0} (r : Result E A) (a : A) → value_of r ≡ some a → r ≡ ok a
value_ok (ok v) a e = ground (arith, e)
value_ok (err x) a e = absurd (cc e)

pub done-true : (b : Bool) (a : Unit {0}) → done b ≡ some a → b ≡ true
done-true true a e = refl
done-true false a e = absurd (cc e)

pub succeeded-some : (o : Option (Unit {0})) → succeeded o ≡ true → o ≡ some tt
succeeded-some (some tt) e = refl
succeeded-some none e = absurd (cc e)
