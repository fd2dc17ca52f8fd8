-- ===== src/Store/Removal.antt =====
-- What the removal of subtrees, and so expiry, does to the records and keeps of the graph.
use ex_qserve.Store.{purge_one, expired_ids}
use ex_qserve.Base.{
  ℕ, ◌+◌, ◌≤◌, ◌<◌, String, ◌≡◌, refl, ap, inl, inr, none, some, List, [], ◌∷◌, ◌==◌, arith, eq_iff,
  Bool, true, false, contains, Bool-cases, Option-cases, is_some, if◌then◌else◌,
}
use ex_qserve.Dict
use ex_qserve.Dict.{Dict, get-pop}
use ex_qserve.Dict.Weight.{total, total-pop-le, size, total-pop, pop-none}
use ex_qserve.Store.{
  Store, StoredRecord, remove_found, remove_one, remove_all, subtree, remove_subtree, purge_ids,
  purge_expired,
}
use ex_qserve.Store.Subtree.{subtree_closed}
use ex_qserve.Store.Graph.{IsGraph, remove_one-IsGraph}

-- The records that are left.
records-remove_one : (id : String) (s : Store) → (remove_one id s).records ≡ Dict.pop id s.records
unfolding remove_one
records-remove_one id s = elim (Option-cases (Dict.get id s.records)) [
  | inl e ↦ rw (e, remove_found, pop-none id s.records e)
  | inr (r, e) ↦ rw (e, remove_found)
]

pub get-remove_all :
    (ids : List String) (s : Store) (k : String)
    → Dict.get k (remove_all ids s).records
      ≡ (if contains k ids then none else Dict.get k s.records)
unfolding remove_all
get-remove_all [] s k = refl
get-remove_all (id ∷ ids) s k =
    ground (
      arith,
      get-remove_all ids (remove_one id s) k,
      records-remove_one id s,
      get-pop id k s.records,
    )

pub get-remove_subtree :
    (id : String) (s : Store) (k : String)
    → Dict.get k (remove_subtree id s).records
      ≡ (if contains k (subtree id s.children) then none else Dict.get k s.records)
unfolding remove_subtree
get-remove_subtree id s k = get-remove_all (subtree id s.children) s k

pub remove_all-IsGraph : (ids : List String) (s : Store) → IsGraph s → IsGraph (remove_all ids s)
unfolding remove_all
remove_all-IsGraph [] s g = g
remove_all-IsGraph (id ∷ ids) s g =
    remove_all-IsGraph ids (remove_one id s) (remove_one-IsGraph id s g)

pub remove_subtree-IsGraph : (id : String) (s : Store) → IsGraph s → IsGraph (remove_subtree id s)
unfolding remove_subtree
remove_subtree-IsGraph id s = remove_all-IsGraph (subtree id s.children) s

pub if-IsGraph : (b : Bool) {s t : Store} → IsGraph s → IsGraph t → IsGraph (if b then s else t)
if-IsGraph true g h = g
if-IsGraph false g h = h

-- No sum over the records grows.
module _ (f : StoredRecord → ℕ) where
  total-remove_all-le :
      (ids : List String) (s : Store) → total f (remove_all ids s).records ≤ total f s.records
  unfolding remove_all
  total-remove_all-le [] s = omega arith
  total-remove_all-le (id ∷ ids) s = omega (
    arith,
    total-remove_all-le ids (remove_one id s),
    ap (total f) (records-remove_one id s),
    total-pop-le f id s.records,
  )

  pub total-remove_subtree-le :
      (id : String) (s : Store) → total f (remove_subtree id s).records ≤ total f s.records
  unfolding remove_subtree
  total-remove_subtree-le id s = total-remove_all-le (subtree id s.children) s

  total-purge_one-le :
      (id : String) (s : Store) → total f (purge_one id s).records ≤ total f s.records
  unfolding purge_one
  total-purge_one-le id s = ground (arith, total-remove_subtree-le id s)

  total-purge_ids-le :
      (ids : List String) (s : Store) → total f (purge_ids ids s).records ≤ total f s.records
  unfolding purge_ids
  total-purge_ids-le [] s = omega arith
  total-purge_ids-le (id ∷ ids) s =
      omega (arith, total-purge_ids-le ids (purge_one id s), total-purge_one-le id s)

  pub total-purge_expired-le :
      (now : ℕ) (s : Store) → total f (purge_expired now s).records ≤ total f s.records
  unfolding purge_expired
  total-purge_expired-le now s = total-purge_ids-le (expired_ids now s.pins s.records) s

purge_one-IsGraph : (id : String) (s : Store) → IsGraph s → IsGraph (purge_one id s)
unfolding purge_one
purge_one-IsGraph id s g =
    if-IsGraph (is_some (Dict.get id s.records)) (remove_subtree-IsGraph id s g) g

purge_ids-IsGraph : (ids : List String) (s : Store) → IsGraph s → IsGraph (purge_ids ids s)
unfolding purge_ids
purge_ids-IsGraph [] s g = g
purge_ids-IsGraph (id ∷ ids) s g = purge_ids-IsGraph ids (purge_one id s) (purge_one-IsGraph id s g)

pub purge_expired-IsGraph : (now : ℕ) (s : Store) → IsGraph s → IsGraph (purge_expired now s)
unfolding purge_expired
purge_expired-IsGraph now s = purge_ids-IsGraph (expired_ids now s.pins s.records) s

-- A recorded id among the removed ones takes its weight out of every sum.
module _ (f : StoredRecord → ℕ) (id : String) (r : StoredRecord) where
  total-remove_all_lt :
      (ids : List String) (s : Store)
      → IsGraph s
      → Dict.get id s.records ≡ some r
      → contains id ids ≡ true
      → total f (remove_all ids s).records + f r ≤ total f s.records
  unfolding remove_all
  total-remove_all_lt [] s g e h = cc
  total-remove_all_lt (k ∷ ks) s g e h = elim (Bool-cases (k == id)) [
    | inl same ↦ omega (
      arith,
      total-remove_all-le f ks (remove_one k s),
      ap (total f) (records-remove_one k s),
      total-pop f k r s.records g.unique (rw ((eq_iff k id).0 same) e),
    )
    | inr other ↦ omega (
      arith,
      total-remove_all_lt ks (remove_one k s) (remove_one-IsGraph k s g)
          (rw records-remove_one (rw (get-pop k id s.records, other) e)) (ground arith),
      ap (total f) (records-remove_one k s),
      total-pop-le f k s.records,
    )
  ]

pub size-remove_subtree :
    (id : String) (s : Store)
    → IsGraph s
    → is_some (Dict.get id s.records) ≡ true
    → size (remove_subtree id s).records < size s.records
unfolding remove_subtree
size-remove_subtree id s g h = elim (Option-cases (Dict.get id s.records)) [
  | inl e ↦ absurd (ground arith)
  | inr (r, e) ↦ omega (
    arith,
    total-remove_all_lt (λ r. 1) id r (subtree id s.children) s g e
        ((subtree_closed id s.children).0),
  )
]

pins-remove_one :
    (id k : String) (s : Store)
    → Dict.get k (remove_one id s).pins ≡ (if id == k then none else Dict.get k s.pins)
unfolding remove_one
pins-remove_one id k s = elim (Option-cases (Dict.get id s.records)) [
  | inl e ↦ rw (e, remove_found) (get-pop id k s.pins)
  | inr (r, e) ↦ rw (e, remove_found) (get-pop id k s.pins)
]

pub pins-remove_all :
    (ids : List String) (k : String) (s : Store)
    → Dict.get k (remove_all ids s).pins ≡ (if contains k ids then none else Dict.get k s.pins)
unfolding remove_all
pins-remove_all [] k s = refl
pins-remove_all (id ∷ ids) k s =
    ground (arith, pins-remove_all ids k (remove_one id s), pins-remove_one id k s)

pub pins-remove_subtree :
    (id k : String) (s : Store)
    → Dict.get k (remove_subtree id s).pins
      ≡ (if contains k (subtree id s.children) then none else Dict.get k s.pins)
unfolding remove_subtree
pins-remove_subtree id k s = pins-remove_all (subtree id s.children) k s
