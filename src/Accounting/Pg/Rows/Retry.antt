-- ===== src/Accounting/Pg/Rows/Retry.antt =====
-- What a retry of an activity does after an attempt whose statements got through, in part or whole.
use cloud_credit_system.Common.{
  ℕ, ◌+◌, ◌≡◌, ◌⊎◌, refl, sym, ap, subst, ◌∙◌, inl, inr, Bool, true, false, Option, none, some, [],
  ◌∷◌, arith, nat_key, nat_beq_iff, if◌then◌else◌, Option-cases, Bool-cases, ◌==◌,
}
use cloud_credit_system.Common.Maps.{Map, lookup, lookup-insert}
use cloud_credit_system.Domain.Resource.{ResourceType, resource_key}
use cloud_credit_system.Accounting.Pg.Rows.{
  Tables, TenantRecord, active, insert_tenant, insert_absent, insert_mappings,
}

-- The value that a key has in the table, and else the value that is to be inserted.
abbrev pub or_else : Option ℕ → Option ℕ → Option ℕ
or_else none b = b
or_else (some a) b = some a

or_else_twice : (a b : Option ℕ) → or_else (or_else a b) b ≡ or_else a b
or_else_twice none none = refl
or_else_twice none (some b) = refl
or_else_twice (some a) b = refl

lookup-insert_absent :
    (k r : ResourceType) (id : ℕ) (rows : Map ResourceType ℕ)
    → lookup r (insert_absent k id rows)
      ≡ or_else (lookup r rows) (if k == r then some id else none)
unfolding insert_absent
lookup-insert_absent k r id rows = elim (Option-cases (lookup k rows)) [
  | inl e ↦ ground (arith, lookup-insert k r id rows, resource_key.same_iff k r)
  | inr (old, e) ↦ ground (arith, resource_key.same_iff k r)
]

or_else_step :
    (a c : Option ℕ) (b : Bool) (id : ℕ)
    → or_else (or_else a (if b then some id else none)) c ≡ or_else a (if b then some id else c)
or_else_step none c true id = refl
or_else_step none c false id = refl
or_else_step (some x) c b id = refl

or_else-none : (a : Option ℕ) → or_else a none ≡ a
or_else-none none = refl
or_else-none (some x) = refl

-- Every statement gets through.
abbrev pub all_reach : ℕ → Bool
all_reach i = true

-- A run that gets through leaves what was there, and adds the mapping's first value of each other key.
lookup-insert_mappings :
    (i : ℕ) (r : ResourceType) (mapping rows : Map ResourceType ℕ)
    → lookup r (insert_mappings all_reach i mapping rows).1
      ≡ or_else (lookup r rows) (lookup r mapping)
unfolding insert_mappings
lookup-insert_mappings i r [] rows = sym (or_else-none (lookup r rows))
lookup-insert_mappings i r ((k, id) ∷ rest) rows =
    lookup-insert_mappings (i + 1) r rest (insert_absent k id rows)
    ∙ ap (λ (o : Option ℕ). or_else o (lookup r rest)) (lookup-insert_absent k r id rows)
    ∙ or_else_step (lookup r rows) (lookup r rest) (k == r) id

-- A value that is there stays, and one that is not comes from the mapping or stays out.
abbrev IsKeptOrTaken : Option ℕ → Option ℕ → Option ℕ → Type 0
IsKeptOrTaken before wanted after = (after ≡ before) ⊎ (after ≡ or_else before wanted)

taken_further :
    (a c after : Option ℕ) (b : Bool) (id : ℕ)
    → IsKeptOrTaken (or_else a (if b then some id else none)) c after
    → IsKeptOrTaken a (if b then some id else c) after
taken_further none c after true id (inl e) = inr e
taken_further none c after false id (inl e) = inl e
taken_further (some x) c after b id (inl e) = inl e
taken_further a c after b id (inr e) = inr (e ∙ or_else_step a c b id)

module _ (reaches : ℕ → Bool) (r : ResourceType) where
  -- A run that stops anywhere has treated each key as a whole run does, or not at all.
  insert_mappings-IsKeptOrTaken :
      (i : ℕ) (mapping rows : Map ResourceType ℕ)
      → IsKeptOrTaken
          (lookup r rows)
          (lookup r mapping)
          (lookup r (insert_mappings reaches i mapping rows).1)
  unfolding insert_mappings
  insert_mappings-IsKeptOrTaken i [] rows = inl refl
  insert_mappings-IsKeptOrTaken i ((k, id) ∷ rest) rows = elim (Bool-cases (reaches i)) [
    | inr stops ↦ rw stops (inl refl)
    | inl goes ↦ rw goes (
        taken_further (lookup r rows) (lookup r rest) _ (k == r) id (
          subst
            (λ (o : Option ℕ).
              IsKeptOrTaken o (lookup r rest)
                (lookup r (insert_mappings reaches (i + 1) rest (insert_absent k id rows)).1))
            (lookup-insert_absent k r id rows)
            (insert_mappings-IsKeptOrTaken (i + 1) rest (insert_absent k id rows))))
  ]

or_else_again : (a b after : Option ℕ) → IsKeptOrTaken a b after → or_else after b ≡ or_else a b
or_else_again a b after (inl e) = rw e refl
or_else_again a b after (inr e) = rw e (or_else_twice a b)

-- InsertTBAccountMapping can be retried: wherever an attempt stops, a next attempt that gets through
-- leaves each resource the account that one attempt that gets through would have left it.
pub mapping_retried :
    (reaches : ℕ → Bool) (r : ResourceType) (mapping rows : Map ResourceType ℕ)
    → lookup r (insert_mappings all_reach 0 mapping (insert_mappings reaches 0 mapping rows).1).1
      ≡ lookup r (insert_mappings all_reach 0 mapping rows).1
mapping_retried reaches r mapping rows =
    let stopped = (insert_mappings reaches 0 mapping rows).1 in
    lookup-insert_mappings 0 r mapping stopped
    ∙ or_else_again (lookup r rows) (lookup r mapping) (lookup r stopped)
        (insert_mappings-IsKeptOrTaken reaches r 0 mapping rows)
    ∙ sym (lookup-insert_mappings 0 r mapping rows)

-- InsertTenant cannot: after an attempt whose statement got through, every further attempt fails, so a
-- completion that is lost makes the activity fail in the end although the tenant is there.
pub tenant_not_retried :
    (parse : ℕ → Option ℕ) (tenant name tier : ℕ) (db db' : Tables)
    → insert_tenant parse tenant name tier db ≡ some db'
    → insert_tenant parse tenant name tier db' ≡ none
unfolding insert_tenant
tenant_not_retried parse tenant name tier db db' inserted = elim (Option-cases (parse tenant)) [
  | inl bad ↦ ground arith
  | inr (id, parsed) ↦ elim (Option-cases (lookup id db.tenants)) [
    | inr (row, there) ↦ ground arith
    | inl absent ↦
        let row : TenantRecord = record {
          name = name;
          billing_tier = tier;
          status = active;
          deleted_at = none;
        } in
        ground (arith, lookup-insert id id row db.tenants, nat_beq_iff id id)
  ]
]
