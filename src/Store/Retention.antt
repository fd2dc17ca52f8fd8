-- ===== src/Store/Retention.antt =====
-- `put_with_evictions`: what a stored record keeps, and what a refusal puts back.
use ex_qserve.Store.Insert.{own_id_not_above}
use ex_qserve.Base.{
  ℕ, String, ◌≡◌, ◌≢◌, refl, ap, ◌∙◌, none, some, List, [], arith, eq_iff, eq_refl, Bool, true,
  false, contains,
}
use ex_qserve.Dict
use ex_qserve.Dict.{Dict, keys}
use ex_qserve.Dict.Weight.{size}
use ex_qserve.Store.{Store, Config, ResponseStoreDisposition, stored, purge_expired}
use ex_qserve.Store.Record.{ResponseRecord}
use ex_qserve.Store.Methods.{
  new_record, replaced, ancestors, protected_ids, chain_fuel, check_parent, evict_to_budget, settle,
  insert, put_with_evictions,
}
use ex_qserve.Store.Graph.{IsGraph}
use ex_qserve.Store.Removal.{purge_expired-IsGraph}
use ex_qserve.Store.Budget.{evict-protected}
use ex_qserve.Store.Insert.{protected-IsUpward, get-replaced, get-cleared-above}
use ex_qserve.Store.Put.{
  IsValid, Outcome, too_large, rejected, inserted, put-Outcome, check_parent_complete,
  check_parent-ne-stored,
}

-- The entry of the new record, and those of its ancestors as they were.
abbrev pub Retained : Config → ResponseRecord → ℕ → Store → Store → Type 0
Retained c r now t after =
    (Dict.get r.response_id after.records ≡ some (new_record c now r))
    × ((k : String)
        → contains k (ancestors (chain_fuel t.records) t.records r.parent_response_id) ≡ true
        → Dict.get k after.records ≡ Dict.get k t.records)

settle_stored :
    (c : Config) (r : ResponseRecord) (before : Store) (result : Store × Bool)
    → (settle c r before result).1 ≡ stored
    → (settle c r before result).0 ≡ result.0
unfolding settle
settle_stored c r before (a, true) h = refl
settle_stored c r before (a, false) h = cc

module _ (c : Config) (r : ResponseRecord) (now : ℕ) (t : Store) (g : IsGraph t)
    (admitted : check_parent r t ≡ none) where
  abbrev outcome : Store × Bool
  outcome =
      evict_to_budget c (size (replaced c now r t).records) (protected_ids c r t)
        (replaced c now r t)

  get-outcome :
      (k : String)
      → contains k (protected_ids c r t) ≡ true
      → Dict.get k outcome.0.records ≡ Dict.get k (replaced c now r t).records
  get-outcome =
      evict-protected c (protected_ids c r t) (size (replaced c now r t).records)
        (replaced c now r t) (protected-IsUpward c now r t g (check_parent_complete r t admitted))

  outcome-Retained : Retained c r now t outcome.0
  outcome-Retained = (
    ground (
      arith,
      get-outcome r.response_id,
      get-replaced c now r t g (check_parent_complete r t admitted) r.response_id,
      eq_refl r.response_id,
    ),
    λ k h. ground (
      arith,
      get-outcome k,
      get-replaced c now r t g (check_parent_complete r t admitted) k,
      get-cleared-above c now r t g (check_parent_complete r t admitted) k,
      own_id_not_above c now r t g (check_parent_complete r t admitted),
      eq_iff r.response_id k,
    ),
  )

  insert-Retained : (insert c now r t).1 ≡ stored → Retained c r now t (insert c now r t).0
  unfolding insert
  insert-Retained h =
      let e : (insert c now r t).0 ≡ outcome.0 = settle_stored c r t outcome h in
      (
        ap (λ s. Dict.get r.response_id s.records) e ∙ outcome-Retained.0,
        λ k m. ap (λ s. Dict.get k s.records) e ∙ outcome-Retained.1 k m,
      )

Outcome-Retained :
    (c : Config) (r : ResponseRecord) (now : ℕ) (t : Store)
    (result : Store × ResponseStoreDisposition × List String)
    → IsGraph t
    → Outcome c r now t result
    → result.1 ≡ stored
    → Retained c r now t result.0
Outcome-Retained c r now t _ g too_large h = cc
Outcome-Retained c r now t _ g (rejected d e) h =
    absurd (check_parent-ne-stored r t (e ∙ ap some h))
Outcome-Retained c r now t _ g (inserted e) h = insert-Retained c r now t g e h

-- When a record is stored, the store holds it and every ancestor of it, in the entry that the
-- ancestor had once expired responses were purged, whatever the eviction took.
pub put_stored :
    (c : Config) (r : ResponseRecord) (now : ℕ) (s : Store)
    → IsValid c s
    → (put_with_evictions c r now s).1 ≡ stored
    → Retained c r now (purge_expired now s) (put_with_evictions c r now s).0
put_stored c r now s v h =
    Outcome-Retained c r now (purge_expired now s) (put_with_evictions c r now s)
      (purge_expired-IsGraph now s v.graph) (put-Outcome c r now s) h

abbrev pub Restored : Store → Store → Type 0
Restored t after =
    (after.records ≡ t.records)
    × (after.children ≡ t.children)
    × (after.estimated_bytes ≡ t.estimated_bytes)

settle_refused :
    (c : Config) (r : ResponseRecord) (before : Store) (result : Store × Bool)
    → (settle c r before result).1 ≢ stored
    → Restored before (settle c r before result).0
      × ((settle c r before result).2 ≡ [])
      × (result.1 ≡ false)
      × ((settle c r before result).0.pins ≡ result.0.pins)
unfolding settle
settle_refused c r before (a, true) h = absurd (h refl)
settle_refused c r before (a, false) h = ((refl, refl, refl), refl, refl, refl)

Outcome-refused :
    (c : Config) (r : ResponseRecord) (now : ℕ) (t : Store)
    (result : Store × ResponseStoreDisposition × List String)
    → Outcome c r now t result
    → result.1 ≢ stored
    → Restored t result.0 × (result.2 ≡ [])
unfolding insert
Outcome-refused c r now t _ too_large h = ((refl, refl, refl), refl)
Outcome-refused c r now t _ (rejected d e) h = ((refl, refl, refl), refl)
Outcome-refused c r now t _ (inserted e) h = let q = settle_refused c r t _ h in (q.0, q.1)

-- A put that is refused, for whatever reason, leaves the records, the child sets and the byte count
-- as the purge of expired responses left them, and reports no eviction.
pub put_refused :
    (c : Config) (r : ResponseRecord) (now : ℕ) (s : Store)
    → (put_with_evictions c r now s).1 ≢ stored
    → Restored (purge_expired now s) (put_with_evictions c r now s).0
      × ((put_with_evictions c r now s).2 ≡ [])
put_refused c r now s =
    Outcome-refused c r now (purge_expired now s) (put_with_evictions c r now s)
      (put-Outcome c r now s)
