-- ===== src/Store/Calls.antt =====
-- Any sequence of calls of the store's methods, and the bounds that hold after it.
pub mod Tests
use ex_qserve.Base.{sym, ◌∙◌}
use mathlib.Core.List.{reverse}
use ex_qserve.Base.{
  ℕ, ◌+◌, ◌≤◌, String, ◌≡◌, refl, ap, inl, inr, Option, none, some, List, [], ◌∷◌, ◌==◌, ◌||◌, ◌&&◌,
  arith, eq_iff, Bool, true, false, Option-cases, if◌then◌else◌,
}
use ex_qserve.Dict
use ex_qserve.Dict.{Dict, get-set_last, set_last-IsUnique}
use ex_qserve.Dict.Weight.{total, size, total-set_last_same}
use ex_qserve.Store.{Store, Config, StoredRecord, init, remove_subtree, purge_expired, children_of}
use ex_qserve.Store.Record.{ResponseRecord}
use ex_qserve.Store.Methods
use ex_qserve.Store.Methods.{
  Chain, complete, cycle, missing, foreign, exhausted, follow, chain_fuel, refresh, refresh_all,
  get, materialize_chain, materialize, put_with_evictions, discard,
}
use ex_qserve.Store.Pins.{pin_ids, pin_chain, unpin_chain, stats}
use ex_qserve.Store.Graph.{IsGraph, IsLinked, weight}
use ex_qserve.Store.Removal.{remove_subtree-IsGraph, total-remove_subtree-le}
use ex_qserve.Store.Put.{IsValid, purge_expired-IsValid, put_with_evictions-IsValid}

repin :
    (c : Config) (s : Store) (pins : Dict ℕ) → IsValid c s → IsValid c (record s { pins = pins })
repin c s pins v = record {
  graph = record {
    unique = v.graph.unique;
    accounted = v.graph.accounted;
    keyed = v.graph.keyed;
    linked = v.graph.linked;
  };
  count = v.count;
  bytes = v.bytes;
}

-- The records in another order or with other expiry times.
refresh-IsValid :
    (c : Config) (expires : ℕ) (id : String) (pins : Dict ℕ) (s : Store)
    → IsValid c s
    → IsValid c (record s { records = refresh expires id s.records; pins = pins })
unfolding refresh
refresh-IsValid c expires id pins s v = elim (Option-cases (Dict.get id s.records)) [
  | inl e ↦ rw (e, refresh) (repin c s pins v)
  | inr (r, e) ↦
      rw (e, refresh)
        (let r' : StoredRecord = record r { expires_at = expires } in
          record {
            graph = record {
              unique = set_last-IsUnique id r' s.records v.graph.unique;
              accounted =
                  v.graph.accounted
                  ∙ sym (total-set_last_same weight id r r' s.records v.graph.unique e refl);
              keyed = λ k q h. ground (
                arith,
                v.graph.keyed k q,
                v.graph.keyed id r e,
                get-set_last id k r' s.records,
                eq_iff id k,
              );
              linked =
                  λ p x h. rw get-set_last (ground (arith, v.graph.linked p x h, e, eq_iff id x));
            };
            count = omega (
              arith,
              v.count,
              total-set_last_same (λ q. 1) id r r' s.records v.graph.unique e refl,
            );
            bytes = v.bytes;
          })
]

refresh_all-IsValid :
    (c : Config) (expires : ℕ) (ids : List String) (pins : Dict ℕ) (s : Store)
    → IsValid c s
    → IsValid c (record s { records = refresh_all expires ids s.records; pins = pins })
unfolding refresh_all
refresh_all-IsValid c expires [] pins s v = repin c s pins v
refresh_all-IsValid c expires (id ∷ ids) pins s v =
    refresh_all-IsValid c expires ids pins
      (record s { records = refresh expires id s.records; pins = pins })
      (refresh-IsValid c expires id pins s v)

remove_subtree-IsValid :
    (c : Config) (id : String) (s : Store) → IsValid c s → IsValid c (remove_subtree id s)
remove_subtree-IsValid c id s v = record {
  graph = remove_subtree-IsGraph id s v.graph;
  count = omega (arith, v.count, total-remove_subtree-le (λ r. 1) id s);
  bytes = omega (
    arith,
    v.bytes,
    v.graph.accounted,
    (remove_subtree-IsGraph id s v.graph).accounted,
    total-remove_subtree-le weight id s,
  );
}

get-IsValid :
    (c : Config) (id : String) (now : ℕ) (s : Store) → IsValid c s → IsValid c (get c id now s).0
unfolding get
get-IsValid c id now s v =
    let t = purge_expired now s in
    let w : IsValid c t = purge_expired-IsValid c now s v in
    elim (Option-cases (Dict.get id t.records)) [
      | inl e ↦ rw (e, get) w
      | inr (r, e) ↦ rw (e, get) (refresh-IsValid c (now + c.ttl_seconds) id t.pins t w)
    ]

materialize_chain-IsValid :
    (c : Config) (id : String) (now : ℕ) (t : Store) (chain : Chain)
    → IsValid c t
    → IsValid c (materialize_chain c id now t chain).0
unfolding materialize_chain
materialize_chain-IsValid c id now t (complete ids) v =
    refresh_all-IsValid c (now + c.ttl_seconds) (reverse ids) t.pins t v
materialize_chain-IsValid c id now t missing v = remove_subtree-IsValid c id t v
materialize_chain-IsValid c id now t cycle v = v
materialize_chain-IsValid c id now t foreign v = v
materialize_chain-IsValid c id now t exhausted v = v

materialize-IsValid :
    (c : Config) (id : String) (now : ℕ) (s : Store)
    → IsValid c s
    → IsValid c (materialize c id now s).0
unfolding materialize
materialize-IsValid c id now s v =
    let t = purge_expired now s in
    let w : IsValid c t = purge_expired-IsValid c now s v in
    elim (Option-cases (Dict.get id t.records)) [
      | inl e ↦ rw (e, materialize) w
      | inr (r, e) ↦
          rw (e, materialize)
            (materialize_chain-IsValid c id now t
              (follow (chain_fuel t.records) t.records r.response.model (some id) []) w)
    ]

pin_ids-IsValid :
    (c : Config) (now : ℕ) (t : Store) (chain : Chain)
    → IsValid c t
    → IsValid c (pin_ids c now t chain).0
unfolding pin_ids
pin_ids-IsValid c now t (complete ids) v = refresh_all-IsValid c (now + c.ttl_seconds) ids _ t v
pin_ids-IsValid c now t missing v = v
pin_ids-IsValid c now t cycle v = v
pin_ids-IsValid c now t foreign v = v
pin_ids-IsValid c now t exhausted v = v

pin_chain-IsValid :
    (c : Config) (id : String) (now : ℕ) (s : Store)
    → IsValid c s
    → IsValid c (pin_chain c id now s).0
unfolding pin_chain
pin_chain-IsValid c id now s v =
    let t = purge_expired now s in
    let w : IsValid c t = purge_expired-IsValid c now s v in
    elim (Option-cases (Dict.get id t.records)) [
      | inl e ↦ rw (e, pin_chain) w
      | inr (r, e) ↦
          rw (e, pin_chain)
            (pin_ids-IsValid c now t
              (follow (chain_fuel t.records) t.records r.response.model (some id) []) w)
    ]

-- A call, with the time that its clock read gives.
pub data Call : Type 0 where
  gets materializes pins discards : String → ℕ → Call
  puts : ResponseRecord → ℕ → Call
  unpins : List String → Call
  counts : ℕ → Call

unfoldable pub step : Config → Store → Call → Store
unfolding get materialize pin_chain put_with_evictions discard unpin_chain stats
step c s (gets id now) = (get c id now s).0
step c s (materializes id now) = (materialize c id now s).0
step c s (pins id now) = (pin_chain c id now s).0
step c s (discards id now) = discard id now s
step c s (puts r now) = (put_with_evictions c r now s).0
step c s (unpins ids) = unpin_chain ids s
step c s (counts now) = (stats now s).0

unfoldable pub run : Config → Store → List Call → Store
unfolding step
run c s [] = s
run c s (call ∷ calls) = run c (step c s call) calls

step-IsValid : (c : Config) (s : Store) (call : Call) → IsValid c s → IsValid c (step c s call)
unfolding step
step-IsValid c s (gets id now) v = get-IsValid c id now s v
step-IsValid c s (materializes id now) v = materialize-IsValid c id now s v
step-IsValid c s (pins id now) v = pin_chain-IsValid c id now s v
step-IsValid c s (discards id now) v =
    remove_subtree-IsValid c id (purge_expired now s) (purge_expired-IsValid c now s v)
step-IsValid c s (puts r now) v = put_with_evictions-IsValid c r now s v
step-IsValid c s (unpins ids) v = repin c s _ v
step-IsValid c s (counts now) v = purge_expired-IsValid c now s v

init-IsValid : (c : Config) → IsValid c init
unfolding init Dict.get
init-IsValid c = record {
  graph = record { unique = tt; accounted = refl; keyed = λ id r h. cc; linked = λ p x h. cc };
  count = omega arith;
  bytes = omega arith;
}

run_from-IsValid :
    (c : Config) (s : Store) (calls : List Call) → IsValid c s → IsValid c (run c s calls)
unfolding run
run_from-IsValid c s [] v = v
run_from-IsValid c s (call ∷ calls) v =
    run_from-IsValid c (step c s call) calls (step-IsValid c s call v)

-- After any calls on a new store, in any order and at any times, each id is recorded once, the byte
-- count is the sum of the records' estimates, every child names its parent, and neither the number
-- of records nor the byte count passes its configured maximum.
pub run-IsValid : (c : Config) (calls : List Call) → IsValid c (run c init calls)
run-IsValid c calls = run_from-IsValid c init calls (init-IsValid c)
