-- ===== src/Store/Put.antt =====
-- `put_with_evictions`: the bounds, the retained chain, and the refusals.
use ex_qserve.Store.Methods.{judge_parent, judge_parent_id}
use ex_qserve.Base.{
  ℕ, ◌≤◌, String, ◌≡◌, ◌≢◌, refl, inl, inr, Option, none, some, List, [], ◌∷◌, arith, Bool, true,
  false, Bool-cases, Option-cases, ltb,
}
use ex_qserve.Dict
use ex_qserve.Dict.{Dict, keys}
use ex_qserve.Dict.Weight.{size}
use ex_qserve.Store.{
  Store, Config, StoredRecord, ResponseStoreDisposition, stored, refused_too_large, purge_expired,
}
use ex_qserve.Store.Record.{ResponseRecord, estimate_response_record_bytes}
use ex_qserve.Store.Methods.{
  replaced, follow, protected_ids, chain_fuel, is_complete, parent_chain_is_valid, check_parent,
  evict_to_budget, settle, insert, put_with_evictions,
}
use ex_qserve.Store.Graph.{IsGraph, weight}
use ex_qserve.Store.Removal.{purge_expired-IsGraph, total-purge_expired-le}
use ex_qserve.Store.Budget.{evict-IsGraph, evict_fits, within_budget}
use ex_qserve.Store.Insert.{replaced-IsGraph}

-- The graph is sound and both bounds of the configuration hold.
pub record IsValid (c : Config) (s : Store) : Type 0 where
  pub graph : IsGraph s
  pub count : size s.records ≤ c.max_records
  pub bytes : s.estimated_bytes ≤ c.max_total_bytes

judge_parent_complete :
    (r : ResponseRecord) (s : Store) (p : String) (o : Option StoredRecord)
    → judge_parent r s p o ≡ none
    → parent_chain_is_valid p r.response_id r.model s.records ≡ true
unfolding judge_parent parent_chain_is_valid
judge_parent_complete r s p none h = cc
judge_parent_complete r s p (some parent) h = ground arith

-- A parent check that passes has walked the whole chain.
judge_parent_id_complete :
    (r : ResponseRecord) (s : Store) (o : Option String)
    → judge_parent_id r s o ≡ none
    → is_complete (follow (chain_fuel s.records) s.records r.model o (r.response_id ∷ [])) ≡ true
unfolding judge_parent_id follow parent_chain_is_valid
judge_parent_id_complete r s none h = refl
judge_parent_id_complete r s (some p) h = judge_parent_complete r s p (Dict.get p s.records) h

pub check_parent_complete :
    (r : ResponseRecord) (s : Store)
    → check_parent r s ≡ none
    → is_complete
        (follow (chain_fuel s.records) s.records r.model r.parent_response_id (r.response_id ∷ []))
      ≡ true
unfolding check_parent
check_parent_complete r s = judge_parent_id_complete r s r.parent_response_id

pub purge_expired-IsValid :
    (c : Config) (now : ℕ) (s : Store) → IsValid c s → IsValid c (purge_expired now s)
purge_expired-IsValid c now s v = record {
  graph = purge_expired-IsGraph now s v.graph;
  count = omega (arith, v.count, total-purge_expired-le (λ r. 1) now s);
  bytes = omega (
    arith,
    v.bytes,
    v.graph.accounted,
    (purge_expired-IsGraph now s v.graph).accounted,
    total-purge_expired-le weight now s,
  );
}

settle-IsValid :
    (c : Config) (r : ResponseRecord) (before : Store) (result : Store × Bool)
    → IsValid c before
    → IsGraph result.0
    → (result.1 ≡ true → IsValid c result.0)
    → IsValid c (settle c r before result).0
unfolding settle
settle-IsValid c r before (after, true) v g h = h refl
settle-IsValid c r before (after, false) v g h = record {
  graph = record {
    unique = v.graph.unique;
    accounted = v.graph.accounted;
    keyed = v.graph.keyed;
    linked = v.graph.linked;
  };
  count = v.count;
  bytes = v.bytes;
}

insert-IsValid :
    (c : Config) (now : ℕ) (r : ResponseRecord) (s : Store)
    → IsValid c s
    → IsValid c (insert c now r s).0
unfolding insert
insert-IsValid c now r s v =
    let t = replaced c now r s in
    let g : IsGraph t = replaced-IsGraph c now r s v.graph in
    let after : IsGraph (evict_to_budget c (size t.records) (protected_ids c r s) t).0 =
      evict-IsGraph c (protected_ids c r s) (size t.records) t g in
    settle-IsValid c r s (evict_to_budget c (size t.records) (protected_ids c r s) t) v after λ h.
      let b =
        within_budget c (evict_to_budget c (size t.records) (protected_ids c r s) t).0 after
          (evict_fits c (protected_ids c r s) (size t.records) t h) in
      record { graph = after; count = b.0; bytes = b.1 }

-- Whatever the record and the outcome, the store stays sound and within both of its bounds.
pub put_with_evictions-IsValid :
    (c : Config) (r : ResponseRecord) (now : ℕ) (s : Store)
    → IsValid c s
    → IsValid c (put_with_evictions c r now s).0
unfolding put_with_evictions
put_with_evictions-IsValid c r now s v =
    let t = purge_expired now s in
    let w : IsValid c t = purge_expired-IsValid c now s v in
    elim (Bool-cases (ltb c.max_total_bytes (estimate_response_record_bytes r))) [
      | inl large ↦ rw (large, put_with_evictions) w
      | inr small ↦ elim (Option-cases (check_parent r t)) [
        | inl e ↦ rw (small, e, put_with_evictions) (insert-IsValid c now r t w)
        | inr (d, e) ↦ rw (small, e, put_with_evictions) w
      ]
    ]

judge_parent-ne-stored :
    (r : ResponseRecord) (s : Store) (p : String) (o : Option StoredRecord)
    → judge_parent r s p o ≢ some stored
unfolding judge_parent
judge_parent-ne-stored r s p none e = cc
judge_parent-ne-stored r s p (some parent) e = ground arith

judge_parent_id-ne-stored :
    (r : ResponseRecord) (s : Store) (o : Option String) → judge_parent_id r s o ≢ some stored
unfolding judge_parent_id
judge_parent_id-ne-stored r s none e = cc
judge_parent_id-ne-stored r s (some p) e = judge_parent-ne-stored r s p _ e

pub check_parent-ne-stored : (r : ResponseRecord) (s : Store) → check_parent r s ≢ some stored
unfolding check_parent
check_parent-ne-stored r s = judge_parent_id-ne-stored r s r.parent_response_id

-- The outcomes of `put_with_evictions`, by the check that decides.
pub data Outcome (c : Config) (r : ResponseRecord) (now : ℕ) (t : Store)
    : Store × ResponseStoreDisposition × List String → Type 0 where
  too_large : Outcome c r now t (t, refused_too_large, [])
  rejected :
      (d : ResponseStoreDisposition) → check_parent r t ≡ some d → Outcome c r now t (t, d, [])
  inserted : check_parent r t ≡ none → Outcome c r now t (insert c now r t)

pub put-Outcome :
    (c : Config) (r : ResponseRecord) (now : ℕ) (s : Store)
    → Outcome c r now (purge_expired now s) (put_with_evictions c r now s)
unfolding put_with_evictions
put-Outcome c r now s =
    let t = purge_expired now s in
    elim (Bool-cases (ltb c.max_total_bytes (estimate_response_record_bytes r))) [
      | inl large ↦ rw (large, put_with_evictions) too_large
      | inr small ↦ elim (Option-cases (check_parent r t)) [
        | inl e ↦ rw (small, e, put_with_evictions) (inserted e)
        | inr (d, e) ↦ rw (small, e, put_with_evictions) (rejected d e)
      ]
    ]
