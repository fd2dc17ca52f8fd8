-- ===== src/Store/Pins.antt =====
-- state/store.py: pins and counters of `InMemoryResponseStore`.
use ex_qserve.Base.{◌≡◌, ◌==◌, arith, eq_iff, Bool-cases, inl, inr}
use ex_qserve.Dict.{get-set, get-pop}
use ex_qserve.Base.{ℕ, ◌+◌, ◌-◌, String, Option, none, some, List, [], ◌∷◌, leb, if◌then◌else◌}
use ex_qserve.Dict
use ex_qserve.Dict.{Dict}
use ex_qserve.Dict.Weight.{size}
use ex_qserve.Store.{Store, Config, purge_expired, pin_count}
use ex_qserve.Store.Methods.{
  Chain, complete, cycle, missing, foreign, exhausted, follow, chain_fuel, refresh_all,
}

unfoldable pub pin_all : List String → Dict ℕ → Dict ℕ
pin_all [] pins = pins
pin_all (id ∷ ids) pins = pin_all ids (Dict.set id (pin_count id pins + 1) pins)

unfoldable pub unpin_all : List String → Dict ℕ → Dict ℕ
unpin_all [] pins = pins
unpin_all (id ∷ ids) pins = unpin_all ids (
    if leb (pin_count id pins) 1
    then Dict.pop id pins
    else Dict.set id (pin_count id pins - 1) pins)

unfoldable pub unpin_chain : List String → Store → Store
unfolding unpin_all
unpin_chain ids s = record s { pins = unpin_all ids s.pins }

module _ (c : Config) where
  unfoldable pub pin_ids : ℕ → Store → Chain → Store × Option (List String)
  unfolding pin_all refresh_all
  pin_ids now t (complete ids) = (
    record t {
      records = refresh_all (now + c.ttl_seconds) ids t.records;
      pins = pin_all ids t.pins;
    },
    some ids,
  )
  pin_ids now t cycle = (t, none)
  pin_ids now t missing = (t, none)
  pin_ids now t foreign = (t, none)
  pin_ids now t exhausted = (t, none)

  unfoldable pub pin_chain : String → ℕ → Store → Store × Option (List String)
  unfolding pin_ids purge_expired follow
  pin_chain id now s =
      let t = purge_expired now s in
      elim (Dict.get id t.records) [
        | none ↦ (t, none)
        | some first ↦
            pin_ids now t
              (follow (chain_fuel t.records) t.records first.response.model (some id) [])
      ]

-- `stats`; `size` is its first part.
unfoldable pub stats : ℕ → Store → Store × ℕ × ℕ
unfolding purge_expired
stats now s = let t = purge_expired now s in (t, size t.records, t.estimated_bytes)

-- How often an id stands in a list.
abbrev pub count : String → List String → ℕ
count k [] = 0
count k (x ∷ xs) = (if x == k then 1 else 0) + count k xs

pin_count-pin_all :
    (ids : List String) (k : String) (pins : Dict ℕ)
    → pin_count k (pin_all ids pins) ≡ pin_count k pins + count k ids
unfolding pin_all
pin_count-pin_all [] k pins = omega arith
pin_count-pin_all (id ∷ ids) k pins = ground (
  arith,
  pin_count-pin_all ids k (Dict.set id (pin_count id pins + 1) pins),
  get-set id k (pin_count id pins + 1) pins,
  eq_iff id k,
)

pin_count-unpin_all :
    (ids : List String) (k : String) (pins : Dict ℕ)
    → pin_count k (unpin_all ids pins) ≡ pin_count k pins - count k ids
unfolding unpin_all
pin_count-unpin_all [] k pins = omega arith
pin_count-unpin_all (id ∷ ids) k pins = elim (Bool-cases (leb (pin_count id pins) 1)) [
  | inl e ↦ rw e (
      ground
        (arith, e, pin_count-unpin_all ids k (Dict.pop id pins), get-pop id k pins, eq_iff id k))
  | inr e ↦ rw e (
      ground (
        arith,
        e,
        pin_count-unpin_all ids k (Dict.set id (pin_count id pins - 1) pins),
        get-set id k (pin_count id pins - 1) pins,
        eq_iff id k,
      ))
]

-- Unpinning a chain that was pinned gives every id the pin count that it had.
pub unpin-pin :
    (ids : List String) (k : String) (pins : Dict ℕ)
    → pin_count k (unpin_all ids (pin_all ids pins)) ≡ pin_count k pins
unpin-pin ids k pins =
    omega (arith, pin_count-unpin_all ids k (pin_all ids pins), pin_count-pin_all ids k pins)
