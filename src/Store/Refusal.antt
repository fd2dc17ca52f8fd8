-- ===== src/Store/Refusal.antt =====
-- `put_with_evictions` refused for the budget: why, and what it does to the pins.
use ex_qserve.Base.{
  ℕ, String, ◌≡◌, ◌≢◌, refl, ap, ◌∙◌, Option, none, some, List, arith, Bool, true, false, is_some,
  ◌||◌, not, nat_eq, contains,
}
use ex_qserve.Dict
use ex_qserve.Dict.Weight.{size}
use ex_qserve.Store.{
  Store, Config, StoredRecord, ResponseStoreDisposition, refused_budget, purge_expired, pin_count,
}
use ex_qserve.Store.Record.{ResponseRecord}
use ex_qserve.Store.Methods.{
  cleared, replaced, protected_ids, over_budget, add_record, judge_parent, judge_parent_id,
  check_parent, evict_to_budget, settle, insert, put_with_evictions,
}
use ex_qserve.Store.Graph.{IsGraph}
use ex_qserve.Store.Subtree.{subtree_closed}
use ex_qserve.Store.Removal.{purge_expired-IsGraph, pins-remove_subtree}
use ex_qserve.Store.Budget.{evict_over, evict_stuck, evict-unpinned, no_victim}
use ex_qserve.Store.Insert.{replaced-IsGraph}
use ex_qserve.Store.Put.{IsValid, Outcome, too_large, rejected, inserted, put-Outcome}

judge_parent-ne-refused_budget :
    (r : ResponseRecord) (s : Store) (p : String) (o : Option StoredRecord)
    → judge_parent r s p o ≢ some refused_budget
unfolding judge_parent
judge_parent-ne-refused_budget r s p none e = cc
judge_parent-ne-refused_budget r s p (some parent) e = ground arith

judge_parent_id-ne-refused_budget :
    (r : ResponseRecord) (s : Store) (o : Option String)
    → judge_parent_id r s o ≢ some refused_budget
unfolding judge_parent_id
judge_parent_id-ne-refused_budget r s none e = cc
judge_parent_id-ne-refused_budget r s (some p) e =
    judge_parent-ne-refused_budget r s p (Dict.get p s.records) e

settle_budget :
    (c : Config) (r : ResponseRecord) (before : Store) (result : Store × Bool)
    → (settle c r before result).1 ≡ refused_budget
    → (result.1 ≡ false) × ((settle c r before result).0.pins ≡ result.0.pins)
unfolding settle
settle_budget c r before (a, true) h = absurd (cc)
settle_budget c r before (a, false) h = (refl, refl)

-- The store as the eviction left it, before the rollback.
abbrev pub evicted : Config → ResponseRecord → ℕ → Store → Store
evicted c r now t =
    (evict_to_budget c (size (replaced c now r t).records) (protected_ids c r t)
      (replaced c now r t)).0

-- The store is over its budget, and each of its records is protected or pinned.
abbrev pub Stuck : Config → ResponseRecord → Store → Store → Type 0
Stuck c r t u =
    (over_budget c u ≡ true)
    × ((k : String)
        → is_some (Dict.get k u.records) ≡ true
        → (contains k (protected_ids c r t) || not (nat_eq (pin_count k u.pins) 0)) ≡ true)

insert-Stuck :
    (c : Config) (r : ResponseRecord) (now : ℕ) (t : Store)
    → IsGraph t
    → (insert c now r t).1 ≡ refused_budget
    → Stuck c r t (evicted c r now t) × ((insert c now r t).0.pins ≡ (evicted c r now t).pins)
unfolding insert
insert-Stuck c r now t g h =
    let u = replaced c now r t in
    let q = settle_budget c r t (evict_to_budget c (size u.records) (protected_ids c r t) u) h in
    (
      (
        evict_over c (protected_ids c r t) (size u.records) u q.0,
        λ k h.
            no_victim (protected_ids c r t) (evicted c r now t).pins (evicted c r now t).records k
              (evict_stuck c (protected_ids c r t) (size u.records) u (replaced-IsGraph c now r t g)
                (omega arith) q.0)
              h,
      ),
      q.1,
    )

Outcome-budget :
    (c : Config) (r : ResponseRecord) (now : ℕ) (t : Store)
    (result : Store × ResponseStoreDisposition × List String)
    → IsGraph t
    → Outcome c r now t result
    → result.1 ≡ refused_budget
    → Stuck c r t (evicted c r now t) × (result.0.pins ≡ (evicted c r now t).pins)
unfolding check_parent
Outcome-budget c r now t _ g too_large h = absurd (cc)
Outcome-budget c r now t _ g (rejected d e) h =
    absurd (judge_parent_id-ne-refused_budget r t r.parent_response_id (e ∙ ap some h))
Outcome-budget c r now t _ g (inserted e) h = insert-Stuck c r now t g h

-- A put is refused for the budget only when the eviction left a store that is over one of its bounds
-- and all of whose records are protected or pinned.
pub put_refused_budget :
    (c : Config) (r : ResponseRecord) (now : ℕ) (s : Store)
    → IsValid c s
    → (put_with_evictions c r now s).1 ≡ refused_budget
    → Stuck c r (purge_expired now s) (evicted c r now (purge_expired now s))
put_refused_budget c r now s v h =
    (Outcome-budget c r now (purge_expired now s) (put_with_evictions c r now s)
      (purge_expired-IsGraph now s v.graph) (put-Outcome c r now s) h).0

pins-replaced :
    (c : Config) (r : ResponseRecord) (now : ℕ) (t : Store)
    → is_some (Dict.get r.response_id t.records) ≡ true
    → Dict.get r.response_id (replaced c now r t).pins ≡ none
unfolding replaced add_record cleared
pins-replaced c r now t h = rw h (
    ground (
      arith,
      pins-remove_subtree r.response_id r.response_id t,
      (subtree_closed r.response_id t.children).0,
    ))

-- A put that replaces a recorded response and is refused for the budget puts the response back
-- without its pins.
pub put_drops_pins :
    (c : Config) (r : ResponseRecord) (now : ℕ) (s : Store)
    → IsValid c s
    → is_some (Dict.get r.response_id (purge_expired now s).records) ≡ true
    → (put_with_evictions c r now s).1 ≡ refused_budget
    → Dict.get r.response_id (put_with_evictions c r now s).0.pins ≡ none
put_drops_pins c r now s v h b =
    let t = purge_expired now s in
    ap (Dict.get r.response_id)
      (Outcome-budget c r now t (put_with_evictions c r now s) (purge_expired-IsGraph now s v.graph)
        (put-Outcome c r now s) b).1
    ∙ evict-unpinned c (protected_ids c r t) r.response_id (size (replaced c now r t).records)
        (replaced c now r t) (pins-replaced c r now t h)
