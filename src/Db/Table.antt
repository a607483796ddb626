-- ===== src/Db/Table.antt =====
-- Tables as lists of rows in the order of insertion, and the parts of SQL that the statements use.
pub mod Laws
use cloud_credit_system.Common.{
  ◌≡◌, refl, Bool, true, false, Option, none, some, List, [], ◌∷◌, ◌++◌, if◌then◌else◌,
}

module _ {ℓ} {R : Type ℓ} where
  -- SELECT … WHERE
  unfoldable pub select : (R → Bool) → List R → List R
  select p [] = []
  select p (r ∷ rs) = let rest = select p rs in if p r then r ∷ rest else rest

  -- A query for one row; `none` is sql.ErrNoRows.
  unfoldable pub select_one : (R → Bool) → List R → Option R
  select_one p [] = none
  select_one p (r ∷ rs) = if p r then some r else select_one p rs

  unfoldable pub exists : (R → Bool) → List R → Bool
  exists p [] = false
  exists p (r ∷ rs) = if p r then true else exists p rs

  -- UPDATE … SET … WHERE
  unfoldable pub update_where : (R → Bool) → (R → R) → List R → List R
  update_where p change [] = []
  update_where p change (r ∷ rs) =
      let rest = update_where p change rs in if p r then change r ∷ rest else r ∷ rest

  -- A key that is there is an error.
  abbrev pub insert_unique : (R → Bool) → R → List R → Option (List R)
  insert_unique p r rs = if exists p rs then none else some (rs ++ (r ∷ []))

  -- ON CONFLICT DO NOTHING
  abbrev pub insert_or_keep : (R → Bool) → R → List R → List R
  insert_or_keep p r rs = if exists p rs then rs else rs ++ (r ∷ [])

  -- ON CONFLICT DO UPDATE
  abbrev pub insert_or_update : (R → Bool) → R → (R → R) → List R → List R
  insert_or_update p r change rs = if exists p rs then update_where p change rs else rs ++ (r ∷ [])

  -- ORDER BY: `before a b` tells that `a` comes strictly before `b`; ties keep the order of the table.
  unfoldable pub place : (R → R → Bool) → R → List R → List R
  place before r [] = r ∷ []
  place before r (q ∷ qs) =
      let rest = place before r qs in if before q r then q ∷ rest else r ∷ q ∷ qs

  unfoldable pub order_by : (R → R → Bool) → List R → List R
  order_by before [] = []
  order_by before (r ∷ rs) = place before r (order_by before rs)
