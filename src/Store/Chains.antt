-- ===== src/Store/Chains.antt =====
-- The walk towards the root: it ends, and what `complete` means.
use ex_qserve.Base.{sym, ◌∙◌}
use ex_qserve.Store.Graph.{has_parent, is_parent}
use ex_qserve.Base.{
  ℕ, zero, suc, ◌<◌, String, ◌≡◌, ◌≢◌, refl, inl, inr, Option, none, some, List, ◌∷◌, ◌==◌, arith,
  eq_iff, true, false, contains, Bool-cases, Option-cases,
}
use ex_qserve.Dict
use ex_qserve.Dict.{Dict}
use ex_qserve.Dict.Weight.{unseen, unseen_step, unseen-le-total}
use ex_qserve.Store.{StoredRecord}
use ex_qserve.Store.Methods.{
  is_complete, Chain, complete, exhausted, prepend, follow, chain_fuel, ancestors,
}

prepend-ne-exhausted : (id : String) (c : Chain) → c ≢ exhausted → prepend id c ≢ exhausted
unfolding prepend
prepend-ne-exhausted id c h e = ground (arith, h)

avoid_step :
    (id : String) (above seen : List String) (x : String)
    → contains id seen ≡ false
    → contains x seen ≡ true
    → (contains x (id ∷ seen) ≡ true → contains x above ≡ false)
    → contains x (id ∷ above) ≡ false
avoid_step id above seen x new m ih = ground (arith, eq_iff id x, ih)

module _ (records : Dict StoredRecord) (model : String) where
  abbrev unvisited : List String → ℕ
  unvisited seen = unseen (λ r. 1) seen records

  -- The loop ends: with fuel above the number of unvisited records it never runs out.
  follow-ne-exhausted :
      (fuel : ℕ) (current : Option String) (seen : List String)
      → unvisited seen < fuel
      → follow fuel records model current seen ≢ exhausted
  unfolding follow
  follow-ne-exhausted zero current seen h = elim h [ ]
  follow-ne-exhausted (suc fuel) none seen h = λ e. cc
  follow-ne-exhausted (suc fuel) (some id) seen h = elim (Bool-cases (contains id seen)) [
    | inl old ↦ rw (old, follow) (λ e. cc)
    | inr new ↦ elim (Option-cases (Dict.get id records)) [
      | inl e ↦ rw (new, e, follow) (λ e. cc)
      | inr (r, e) ↦ elim (Bool-cases (r.response.model == model)) [
        | inl same ↦
            rw (new, e, same, follow)
              (prepend-ne-exhausted id
                (follow fuel records model r.response.parent_response_id (id ∷ seen))
                (follow-ne-exhausted fuel r.response.parent_response_id (id ∷ seen)
                  (omega (arith, unseen_step (λ (r : StoredRecord). 1) id r seen records new e))))
        | inr other ↦ rw (new, e, other, follow) (λ e. cc)
      ]
    ]
  ]

  is_complete-prepend : (id : String) (c : Chain) → is_complete (prepend id c) ≡ is_complete c
  unfolding prepend
  is_complete-prepend id (complete ids) = refl
  is_complete-prepend id _ = refl

  pub ancestors_head :
      (fuel : ℕ) (current : Option String) (seen : List String) (k : String)
      → is_complete (follow fuel records model current seen) ≡ true
      → is_parent current k ≡ true
      → contains k (ancestors fuel records current) ≡ true
  unfolding follow ancestors
  ancestors_head zero current seen k h p = cc
  ancestors_head (suc fuel) none seen k h p = cc
  ancestors_head (suc fuel) (some id) seen k h p = elim (Option-cases (Dict.get id records)) [
    | inl e ↦ rw (e, ancestors) (ground arith)
    | inr (r, e) ↦ rw (e, ancestors) (ground arith)
  ]

  -- One round: the start and what the rest of the walk holds.
  closed_step :
      (fuel : ℕ) (id : String) (r : StoredRecord) (seen : List String)
      → Dict.get id records ≡ some r
      → is_complete (follow fuel records model r.response.parent_response_id (id ∷ seen)) ≡ true
      → (is_complete (follow fuel records model r.response.parent_response_id (id ∷ seen)) ≡ true
          → (k x : String) → has_parent (Dict.get x records) k ≡ true
          → contains x (ancestors fuel records r.response.parent_response_id) ≡ true
          → contains k (ancestors fuel records r.response.parent_response_id) ≡ true)
      → (k x : String) → has_parent (Dict.get x records) k ≡ true
      → contains x (id ∷ ancestors fuel records r.response.parent_response_id) ≡ true
      → contains k (id ∷ ancestors fuel records r.response.parent_response_id) ≡ true
  closed_step fuel id r seen e above ih k x p m = ground (
    arith,
    eq_iff id x,
    ih above k x p,
    ancestors_head fuel r.response.parent_response_id (id ∷ seen) k above,
  )

  -- The ids above the start, when the walk is complete, hold the parent of each of their members.
  pub complete-closed :
      (fuel : ℕ) (current : Option String) (seen : List String)
      → is_complete (follow fuel records model current seen) ≡ true
      → (k x : String) → has_parent (Dict.get x records) k ≡ true
      → contains x (ancestors fuel records current) ≡ true
      → contains k (ancestors fuel records current) ≡ true
  unfolding follow ancestors
  complete-closed zero current seen = λ h k x p m. cc
  complete-closed (suc fuel) none seen = λ h k x p m. cc
  complete-closed (suc fuel) (some id) seen = elim (Bool-cases (contains id seen)) [
    | inl old ↦ rw (old, follow) (λ h k x p m. cc)
    | inr new ↦ elim (Option-cases (Dict.get id records)) [
      | inl e ↦ rw (new, e, follow) (λ h k x p m. cc)
      | inr (r, e) ↦ elim (Bool-cases (r.response.model == model)) [
        | inl same ↦
            rw (new, e, same, follow, ancestors)
              λ h.
                closed_step fuel id r seen e
                  (sym (
                      is_complete-prepend id
                        (follow fuel records model r.response.parent_response_id (id ∷ seen)))
                    ∙ h)
                  (complete-closed fuel r.response.parent_response_id (id ∷ seen))
        | inr other ↦ rw (new, e, other, follow) (λ h k x p m. cc)
      ]
    ]
  ]

  -- A complete walk meets nothing that it was told of.
  pub complete-avoids :
      (fuel : ℕ) (current : Option String) (seen : List String)
      → is_complete (follow fuel records model current seen) ≡ true
      → (x : String) → contains x seen ≡ true
      → contains x (ancestors fuel records current) ≡ false
  unfolding follow ancestors
  complete-avoids zero current seen = λ h x m. cc
  complete-avoids (suc fuel) none seen = λ h x m. refl
  complete-avoids (suc fuel) (some id) seen = elim (Bool-cases (contains id seen)) [
    | inl old ↦ rw (old, follow) (λ h x m. cc)
    | inr new ↦ elim (Option-cases (Dict.get id records)) [
      | inl e ↦ rw (new, e, follow) (λ h x m. cc)
      | inr (r, e) ↦ elim (Bool-cases (r.response.model == model)) [
        | inl same ↦
            rw (new, e, same, follow, ancestors)
              λ h x m.
                avoid_step id (ancestors fuel records r.response.parent_response_id) seen x new m (
                  complete-avoids fuel r.response.parent_response_id (id ∷ seen)
                    (sym (
                        is_complete-prepend id
                          (follow fuel records model r.response.parent_response_id (id ∷ seen)))
                      ∙ h)
                    x)
        | inr other ↦ rw (new, e, other, follow) (λ h x m. cc)
      ]
    ]
  ]

-- The fuel of the store's chain walks is enough: from any start, and told of any ids, the walk ends
-- at the root, at an id that it met before, at an id that is not recorded, or at another model.
pub follow_terminates :
    (records : Dict StoredRecord) (model : String) (current : Option String) (seen : List String)
    → follow (chain_fuel records) records model current seen ≢ exhausted
follow_terminates records model current seen =
    follow-ne-exhausted records model (chain_fuel records) current seen
      (omega (arith, unseen-le-total (λ (r : StoredRecord). 1) seen records))
