-- ===== src/Db/Table/Laws.antt =====
-- What the parts of SQL keep of a table: a predicate on its rows, a unique key, and the rows that a query
-- finds.
use cloud_credit_system.Common.{
  ◌≡◌, refl, ◌∙◌, inl, inr, Bool, ◌&&◌, some, true, false, List, [], ◌∷◌, ◌++◌, arith, All,
  if◌then◌else◌, Bool-cases,
}
use mathlib.Core.Option
use cloud_credit_system.Db.Table.{select_one, select, exists, update_where, insert_or_keep}

module _ {ℓ} {R : Type ℓ} where
  pub exists-append :
      (p : R → Bool) (xs ys : List R)
      → exists p (xs ++ ys) ≡ (if exists p xs then true else exists p ys)
  unfolding exists
  exists-append p [] ys = refl
  exists-append p (x ∷ xs) ys = let rest = exists-append p xs ys in ground (arith, rest)

  -- An update that does not touch what `p` looks at.
  pub exists-update_where :
      (p q : R → Bool) (change : R → R) (rs : List R)
      → ((r : R) → p (change r) ≡ p r)
      → exists p (update_where q change rs) ≡ exists p rs
  unfolding exists update_where
  exists-update_where p q change [] h = refl
  exists-update_where p q change (r ∷ rs) h =
      let rest = exists-update_where p q change rs h in ground (arith, rest, h r)

  -- Without a row to update, nothing changes.
  pub update_where_absent :
      (q : R → Bool) (change : R → R) (rs : List R)
      → exists q rs ≡ false
      → update_where q change rs ≡ rs
  unfolding exists update_where
  update_where_absent q change [] h = refl
  update_where_absent q change (r ∷ rs) h =
      let rest = update_where_absent q change rs in ground (arith, h, rest)

  pub update_where-All {κ} :
      (P : R → Type κ) (q : R → Bool) (change : R → R) (rs : List R)
      → ((r : R) → q r ≡ true → P r → P (change r))
      → All P rs
      → All P (update_where q change rs)
  unfolding update_where
  update_where-All P q change [] f h = tt
  update_where-All P q change (r ∷ rs) f (first, h) =
      let rest = update_where-All P q change rs f h in
      elim (Bool-cases (q r)) [
        | inl chosen ↦ rw chosen (f r chosen first, rest)
        | inr other ↦ rw other (first, rest)
      ]

  -- A query that looks at nothing that an update changes, or at other rows, finds the same rows.
  pub select-update_where :
      (p q : R → Bool) (change : R → R) (rs : List R)
      → ((r : R) → q r ≡ true → p r ≡ false)
      → ((r : R) → q r ≡ true → p (change r) ≡ false)
      → select p (update_where q change rs) ≡ select p rs
  unfolding select update_where
  select-update_where p q change [] apart apart' = refl
  select-update_where p q change (r ∷ rs) apart apart' =
      let rest = select-update_where p q change rs apart apart' in
      elim (Bool-cases (q r)) [
        | inl chosen ↦ ground (arith, chosen, rest, apart r chosen, apart' r chosen)
        | inr other ↦ ground (arith, other, rest)
      ]

  -- The same, where no row is updated that belongs to the owner that the query is about.
  pub select-untouched :
      (o p q : R → Bool) (change : R → R) (rs : List R)
      → exists (λ r. q r && o r) rs ≡ false
      → ((r : R) → o r ≡ false → p r ≡ false)
      → ((r : R) → o r ≡ false → p (change r) ≡ false)
      → select p (update_where q change rs) ≡ select p rs
  unfolding exists select update_where
  select-untouched o p q change [] none_owned apart apart' = refl
  select-untouched o p q change (r ∷ rs) none_owned apart apart' =
      let rest = select-untouched o p q change rs in
      ground (arith, none_owned, rest, apart, apart', apart r, apart' r)

  pub select_one-update_where :
      (p q : R → Bool) (change : R → R) (rs : List R)
      → ((r : R) → q r ≡ true → p r ≡ false)
      → ((r : R) → q r ≡ true → p (change r) ≡ false)
      → select_one p (update_where q change rs) ≡ select_one p rs
  unfolding select_one update_where
  select_one-update_where p q change [] apart apart' = refl
  select_one-update_where p q change (r ∷ rs) apart apart' =
      let rest = select_one-update_where p q change rs apart apart' in
      elim (Bool-cases (q r)) [
        | inl chosen ↦ ground (arith, chosen, rest, apart r chosen, apart' r chosen)
        | inr other ↦ ground (arith, other, rest)
      ]

  -- The row of a key after the update of this key.
  pub select_one-updated :
      (p : R → Bool) (change : R → R) (rs : List R)
      → ((r : R) → p (change r) ≡ p r)
      → select_one p (update_where p change rs) ≡ Option.map change (select_one p rs)
  unfolding select_one update_where
  select_one-updated p change [] keeps = refl
  select_one-updated p change (r ∷ rs) keeps =
      let rest = select_one-updated p change rs keeps in
      elim (Bool-cases (p r)) [
        | inl chosen ↦ ground (arith, chosen, keeps r)
        | inr other ↦ ground (arith, other, rest)
      ]

  pub select_one_found :
      (p : R → Bool) (rs : List R) → exists p rs ≡ true → (r : R) × (select_one p rs ≡ some r)
  unfolding select_one exists
  select_one_found p [] there = absurd (cc there)
  select_one_found p (r ∷ rs) there = elim (Bool-cases (p r)) [
    | inl chosen ↦ (r, rw chosen refl)
    | inr other ↦
        let (q, found) = select_one_found p rs (ground (arith, there, other)) in
        (q, ground (arith, other, found))
  ]

  pub select_one_appended :
      (p : R → Bool) (rs : List R) (r : R)
      → exists p rs ≡ false
      → p r ≡ true
      → select_one p (rs ++ (r ∷ [])) ≡ some r
  unfolding select_one exists
  select_one_appended p [] r absent new = rw new refl
  select_one_appended p (q ∷ rs) r absent new = elim (Bool-cases (p q)) [
    | inl chosen ↦ absurd (ground (arith, absent, chosen))
    | inr other ↦
        let rest = select_one_appended p rs r (ground (arith, absent, other)) new in
        ground (arith, other, rest)
  ]

  pub select_one_skips :
      (p : R → Bool) (rs : List R) (r : R)
      → p r ≡ false
      → select_one p (rs ++ (r ∷ [])) ≡ select_one p rs
  unfolding select_one
  select_one_skips p [] r apart = ground (arith, apart)
  select_one_skips p (q ∷ rs) r apart =
      let rest = select_one_skips p rs r apart in ground (arith, rest)

  -- A row that a query does not ask for can be added.
  pub select_skips :
      (p : R → Bool) (rs : List R) (r : R) → p r ≡ false → select p (rs ++ (r ∷ [])) ≡ select p rs
  unfolding select
  select_skips p [] r apart = ground (arith, apart)
  select_skips p (q ∷ rs) r apart = let rest = select_skips p rs r apart in ground (arith, rest)

  pub select-append :
      (p : R → Bool) (xs ys : List R) → select p (xs ++ ys) ≡ select p xs ++ select p ys
  unfolding select
  select-append p [] ys = refl
  select-append p (x ∷ xs) ys = let rest = select-append p xs ys in ground (arith, rest)

  -- A key: `same a` tells which rows have the key of `a`.
  module _ (same : R → R → Bool) where
    -- No two rows have the same key.
    abbrev pub IsKeyed : List R → Type 0
    IsKeyed [] = Unit {0}
    IsKeyed (r ∷ rs) = (exists (same r) rs ≡ false) × IsKeyed rs

    module _ (mirror : (a b : R) → same a b ≡ same b a) where
      pub append-IsKeyed :
          (rs : List R) (r : R) → exists (same r) rs ≡ false → IsKeyed rs → IsKeyed (rs ++ (r ∷ []))
      unfolding exists
      append-IsKeyed [] r new h = (refl, tt)
      append-IsKeyed (q ∷ rs) r new (first, h) =
          let rest = append-IsKeyed rs r (ground (arith, new)) h in
          (ground (arith, first, new, mirror q r, exists-append (same q) rs (r ∷ [])), rest)

      pub insert_or_keep-IsKeyed :
          (rs : List R) (r : R) → IsKeyed rs → IsKeyed (insert_or_keep (same r) r rs)
      insert_or_keep-IsKeyed rs r h = elim (Bool-cases (exists (same r) rs)) [
        | inl there ↦ rw there h
        | inr new ↦ rw new (append-IsKeyed rs r new h)
      ]

    pub update_where-IsKeyed :
        (q : R → Bool) (change : R → R) (rs : List R)
        → ((a b : R) → same a (change b) ≡ same a b)
        → ((a b : R) → same (change a) b ≡ same a b)
        → IsKeyed rs
        → IsKeyed (update_where q change rs)
    unfolding exists update_where
    update_where-IsKeyed q change [] right left h = tt
    update_where-IsKeyed q change (r ∷ rs) right left (first, h) =
        let rest = update_where-IsKeyed q change rs right left h in
        let kept = exists-update_where (same r) q change rs (right r) in
        let kept' = exists-update_where (same (change r)) q change rs (right (change r)) in
        elim (Bool-cases (q r)) [
          | inl chosen ↦ rw chosen (kept' ∙ exists_alike (change r) r rs (left r) ∙ first, rest)
          | inr other ↦ rw other (kept ∙ first, rest)
        ]
      where
        exists_alike :
            (a b : R) (rs : List R)
            → ((c : R) → same a c ≡ same b c)
            → exists (same a) rs ≡ exists (same b) rs
        exists_alike a b [] e = refl
        exists_alike a b (c ∷ rs) e = let rest = exists_alike a b rs e in ground (arith, rest, e c)
