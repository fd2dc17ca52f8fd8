-- ===== src/Store/Calls/Tests.antt =====
-- Tests of the store, and the theorems at concrete stores.
use ex_qserve.Base.{ℕ, String, ◌≡◌, ◌≢◌, refl, true, Option, none, some, List, [], ◌∷◌, contains}
use ex_qserve.Dict
use ex_qserve.Dict.{Dict}
use ex_qserve.Store.{
  Store, Config, refused_budget, refused_missing_parent, init, subtree, children_of, purge_expired,
  pin_count,
}
use ex_qserve.Store.Record.{bytes, ResponseRecord, estimate_response_record_bytes}
use ex_qserve.Store.Methods.{materialize, put_with_evictions, follow, chain_fuel, exhausted, items}
use ex_qserve.Store.Pins.{pin_all, unpin_all, unpin-pin}
use ex_qserve.Store.Subtree.{subtree_closed}
use ex_qserve.Store.Chains.{follow_terminates}
use ex_qserve.Store.Put.{IsValid}
use ex_qserve.Store.Retention.{Retained, Restored, put_stored, put_refused}
use ex_qserve.Store.Refusal.{Stuck, evicted, put_refused_budget, put_drops_pins}
use ex_qserve.Store.Calls.{Call, pins, puts, run, run-IsValid}

program : Unit {0}
unfolding run materialize put_with_evictions estimate_response_record_bytes init subtree Dict.get
    Dict.set_last Dict.set
program = tt

abbrev config : Config
config = record { max_records = 3; ttl_seconds = 10; max_total_bytes = 400 }

abbrev response : String → Option String → ℕ → ResponseRecord
response id parent n = record {
  response_id = id;
  model = "m";
  parent_response_id = parent;
  delta_items = bytes n ∷ [];
}

-- "b" continues "a"; both are pinned.
abbrev history : List Call
history = puts (response "a" none 20) 0 ∷ puts (response "b" (some "a") 30) 1 ∷ pins "b" 2 ∷ []

abbrev chained : Store
chained = run config init history

estimate_a : estimate_response_record_bytes (response "a" none 20) ≡ 116
unfolding program
estimate_a = refl

materialize_b : (materialize config "b" 3 chained).1 ≡ items (bytes 20 ∷ bytes 30 ∷ [])
unfolding program
materialize_b = refl

chained-IsValid : IsValid config chained
chained-IsValid = run-IsValid config history

run-IsValid_example : IsValid config (run config init history)
run-IsValid_example = run-IsValid config history

put_stored_example :
    Retained config
      (response "c" (some "b") 5)
      3
      (purge_expired 3 chained)
      (put_with_evictions config (response "c" (some "b") 5) 3 chained).0
unfolding program
put_stored_example = put_stored config (response "c" (some "b") 5) 3 chained chained-IsValid refl

missing_parent :
    (put_with_evictions config (response "c" (some "x") 5) 3 chained).1 ≡ refused_missing_parent
unfolding program
missing_parent = refl

put_refused_example :
    Restored
      (purge_expired 3 chained)
      (put_with_evictions config (response "c" (some "x") 5) 3 chained).0
    × ((put_with_evictions config (response "c" (some "x") 5) 3 chained).2 ≡ [])
unfolding program
put_refused_example = put_refused config (response "c" (some "x") 5) 3 chained (λ e. cc)

-- Two roots, both pinned: a larger "a" has no room, and nothing can go.
abbrev roots : List Call
roots = puts (response "a" none 20) 0 ∷ puts (response "b" none 30) 1 ∷ pins "b" 2 ∷ pins "a" 2 ∷ []

abbrev pinned : Store
pinned = run config init roots

larger : (put_with_evictions config (response "a" none 250) 3 pinned).1 ≡ refused_budget
unfolding program
larger = refl

put_refused_budget_example :
    Stuck config
      (response "a" none 250)
      (purge_expired 3 pinned)
      (evicted config (response "a" none 250) 3 (purge_expired 3 pinned))
unfolding program
put_refused_budget_example =
    put_refused_budget config (response "a" none 250) 3 pinned (run-IsValid config roots) larger

pinned_before : pin_count "a" pinned.pins ≡ 1
unfolding program
pinned_before = refl

put_drops_pins_example :
    Dict.get "a" (put_with_evictions config (response "a" none 250) 3 pinned).0.pins ≡ none
unfolding program
put_drops_pins_example =
    put_drops_pins config (response "a" none 250) 3 pinned (run-IsValid config roots) refl larger

abbrev links : Dict (List String)
links = ("a", "b" ∷ "c" ∷ []) ∷ ("c", "d" ∷ []) ∷ []

subtree_a : subtree "a" links ≡ "b" ∷ "d" ∷ "c" ∷ "a" ∷ []
unfolding program
subtree_a = refl

subtree_closed_example :
    (contains "a" (subtree "a" links) ≡ true)
    × ((k c : String)
        → contains k (subtree "a" links) ≡ true
        → contains c (children_of links k) ≡ true
        → contains c (subtree "a" links) ≡ true)
subtree_closed_example = subtree_closed "a" links

follow_terminates_example :
    follow (chain_fuel chained.records) chained.records "m" (some "b") [] ≢ exhausted
follow_terminates_example = follow_terminates chained.records "m" (some "b") []

unpin-pin_example :
    pin_count "a" (unpin_all ("b" ∷ "a" ∷ []) (pin_all ("b" ∷ "a" ∷ []) chained.pins))
    ≡ pin_count "a" chained.pins
unpin-pin_example = unpin-pin ("b" ∷ "a" ∷ []) "a" chained.pins
