-- ===== src/Store/Budget.antt =====
-- The eviction loop of `put`: when it stops, and what it never takes.
use ex_qserve.Store.Removal.{pins-remove_subtree}
use ex_qserve.Store.Removal.{size-remove_subtree}
use ex_qserve.Base.{
  ℕ, zero, suc, ◌≤◌, String, ◌≡◌, refl, inl, inr, none, some, List, [], ◌∷◌, ◌||◌, ◌&&◌, not, arith,
  eq_iff, eq_refl, true, false, contains, Bool-cases, Option-cases, is_empty, is_some, ltb, nat_eq,
}
use ex_qserve.Dict
use ex_qserve.Dict.{Dict, get-pop}
use ex_qserve.Dict.Weight.{total, size}
use ex_qserve.Store.{
  Store, Config, StoredRecord, victim, pin_count, remove_subtree, remove_one, remove_all, subtree,
  children_of,
}
use ex_qserve.Store.Methods.{over_budget, evict_to_budget}
use ex_qserve.Store.Graph.{IsGraph, weight, children-remove_one}
use ex_qserve.Store.Subtree.{subtree_outside}
use ex_qserve.Store.Removal.{get-remove_subtree, remove_subtree-IsGraph}

-- A victim is recorded, not protected and not pinned.
pub victim_lem :
    (protected : List String) (pins : Dict ℕ) (records : Dict StoredRecord) (id : String)
    → victim protected pins records ≡ some id
    → (contains id protected ≡ false)
      × (pin_count id pins ≡ 0)
      × (is_some (Dict.get id records) ≡ true)
unfolding victim Dict.get
victim_lem protected pins [] id e = cc
victim_lem protected pins ((k, r) ∷ rest) id e =
    ground (arith, victim_lem protected pins rest id, eq_refl id, eq_iff k id)

-- Where no victim is left, every recorded response is protected or pinned.
pub no_victim :
    (protected : List String) (pins : Dict ℕ) (records : Dict StoredRecord) (k : String)
    → victim protected pins records ≡ none
    → is_some (Dict.get k records) ≡ true
    → (contains k protected || not (nat_eq (pin_count k pins) 0)) ≡ true
unfolding victim Dict.get
no_victim protected pins [] k e h = cc
no_victim protected pins ((j, r) ∷ rest) k e h =
    ground (arith, no_victim protected pins rest k, eq_refl k, eq_iff j k)

victim_nil :
    (protected : List String) (pins : Dict ℕ) (records : Dict StoredRecord)
    → size records ≤ 0
    → victim protected pins records ≡ none
unfolding victim
victim_nil protected pins [] h = refl
victim_nil protected pins ((k, r) ∷ rest) h = absurd (omega arith)

children-remove_all :
    (ids : List String) (p c : String) (s : Store)
    → contains c (children_of (remove_all ids s).children p) ≡ true
    → contains c (children_of s.children p) ≡ true
unfolding remove_all
children-remove_all [] p c s h = h
children-remove_all (id ∷ ids) p c s h =
    children-remove_one id p c s (children-remove_all ids p c (remove_one id s) h)

pub children-remove_subtree :
    (id p c : String) (s : Store)
    → contains c (children_of (remove_subtree id s).children p) ≡ true
    → contains c (children_of s.children p) ≡ true
unfolding remove_subtree
children-remove_subtree id p c s = children-remove_all (subtree id s.children) p c s

module _ (c : Config) (protected : List String) where
  -- What every removal of a victim keeps, the loop keeps.
  evict_rule {ℓ} :
      (P : Store → Type ℓ)
      → ((s : Store) (id : String)
          → victim protected s.pins s.records ≡ some id
          → P s
          → P (remove_subtree id s))
      → (fuel : ℕ) (s : Store) → P s
      → P (evict_to_budget c fuel protected s).0
  unfolding evict_to_budget
  evict_rule P step zero s h = h
  evict_rule P step (suc fuel) s h = elim (Bool-cases (over_budget c s)) [
    | inl over ↦ elim (Option-cases (victim protected s.pins s.records)) [
      | inl e ↦ rw (over, e, evict_to_budget) h
      | inr (id, e) ↦
          rw (over, e, evict_to_budget)
            (evict_rule P step fuel (remove_subtree id s) (step s id e h))
    ]
    | inr fits ↦ rw (fits, evict_to_budget) h
  ]

  pub evict-IsGraph :
      (fuel : ℕ) (s : Store) → IsGraph s → IsGraph (evict_to_budget c fuel protected s).0
  evict-IsGraph = evict_rule IsGraph (λ s id e g. remove_subtree-IsGraph id s g)

  -- The answer `true` means that the budget is met.
  pub evict_fits :
      (fuel : ℕ) (s : Store)
      → (evict_to_budget c fuel protected s).1 ≡ true
      → over_budget c (evict_to_budget c fuel protected s).0 ≡ false
  unfolding evict_to_budget
  evict_fits zero s = λ h. ground arith
  evict_fits (suc fuel) s = elim (Bool-cases (over_budget c s)) [
    | inl over ↦ elim (Option-cases (victim protected s.pins s.records)) [
      | inl e ↦ rw (over, e, evict_to_budget) (λ h. cc)
      | inr (id, e) ↦ rw (over, e, evict_to_budget) (evict_fits fuel (remove_subtree id s))
    ]
    | inr fits ↦ rw (fits, evict_to_budget) (λ h. fits)
  ]

  abbrev pub IsUpward : Store → Type 0
  IsUpward s =
      (k x : String)
      → contains x (children_of s.children k) ≡ true
      → contains x protected ≡ true
      → contains k protected ≡ true

  record Keeps (before s : Store) : Type 0 where
    upward : IsUpward s
    same :
        (k : String)
        → contains k protected ≡ true
        → Dict.get k s.records ≡ Dict.get k before.records

  Keeps-step :
      (before s : Store) (id : String)
      → victim protected s.pins s.records ≡ some id
      → Keeps before s
      → Keeps before (remove_subtree id s)
  Keeps-step before s id e h = record {
    upward = λ k x hx. h.upward k x (children-remove_subtree id k x s hx);
    same = λ k hk. ground (
      arith,
      get-remove_subtree id s k,
      h.same k hk,
      subtree_outside (λ i. contains i protected) id s.children h.upward
          ((victim_lem protected s.pins s.records id e).0) k,
    );
  }

  -- A protected set that holds the parent of each of its members loses no record.
  pub evict-protected :
      (fuel : ℕ) (s : Store)
      → IsUpward s
      → (k : String) → contains k protected ≡ true
      → Dict.get k (evict_to_budget c fuel protected s).0.records ≡ Dict.get k s.records
  evict-protected fuel s up =
      (evict_rule (Keeps s) (Keeps-step s) fuel s
        (record { upward = up; same = λ k hk. refl })).same

  -- With a round for each record, `false` means that a store over its budget has no victim.
  pub evict_stuck :
      (fuel : ℕ) (s : Store)
      → IsGraph s
      → size s.records ≤ fuel
      → (evict_to_budget c fuel protected s).1 ≡ false
      → victim protected
          (evict_to_budget c fuel protected s).0.pins
          (evict_to_budget c fuel protected s).0.records
        ≡ none
  unfolding evict_to_budget
  evict_stuck zero s g b = λ h. victim_nil protected s.pins s.records b
  evict_stuck (suc fuel) s g b = elim (Bool-cases (over_budget c s)) [
    | inl over ↦ elim (Option-cases (victim protected s.pins s.records)) [
      | inl e ↦ rw (over, e, evict_to_budget) (λ h. e)
      | inr (id, e) ↦
          rw (over, e, evict_to_budget)
            (evict_stuck fuel (remove_subtree id s) (remove_subtree-IsGraph id s g) (
              omega (
                arith,
                size-remove_subtree id s g ((victim_lem protected s.pins s.records id e).2),
              )))
    ]
    | inr fits ↦ rw (fits, evict_to_budget) (λ h. cc)
  ]

within_bounds :
    (c : Config) (records : Dict StoredRecord) (bytes : ℕ)
    → bytes ≡ total weight records
    → (not (is_empty records) && (ltb c.max_records (size records) || ltb c.max_total_bytes bytes))
      ≡ false
    → (size records ≤ c.max_records) × (bytes ≤ c.max_total_bytes)
within_bounds c [] bytes a h = omega arith
within_bounds c (x ∷ xs) bytes a h = ground arith

-- A store that is not over its budget is within both bounds.
pub within_budget :
    (c : Config) (s : Store)
    → IsGraph s
    → over_budget c s ≡ false
    → (size s.records ≤ c.max_records) × (s.estimated_bytes ≤ c.max_total_bytes)
unfolding over_budget
within_budget c s g h = within_bounds c s.records s.estimated_bytes g.accounted h

-- What is unpinned stays so through the eviction.
pub evict-unpinned :
    (c : Config) (protected : List String) (k : String) (fuel : ℕ) (s : Store)
    → Dict.get k s.pins ≡ none
    → Dict.get k (evict_to_budget c fuel protected s).0.pins ≡ none
evict-unpinned c protected k =
    evict_rule c protected (λ s. Dict.get k s.pins ≡ none)
      (λ s id e h. ground (arith, h, pins-remove_subtree id k s))

-- The answer `false` means that the budget is not met.
pub evict_over :
    (c : Config) (protected : List String) (fuel : ℕ) (s : Store)
    → (evict_to_budget c fuel protected s).1 ≡ false
    → over_budget c (evict_to_budget c fuel protected s).0 ≡ true
unfolding evict_to_budget
evict_over c protected zero s = λ h. ground arith
evict_over c protected (suc fuel) s = elim (Bool-cases (over_budget c s)) [
  | inl over ↦ elim (Option-cases (victim protected s.pins s.records)) [
    | inl e ↦ rw (over, e, evict_to_budget) (λ h. over)
    | inr (id, e) ↦
        rw (over, e, evict_to_budget) (evict_over c protected fuel (remove_subtree id s))
  ]
  | inr fits ↦ rw (fits, evict_to_budget) (λ h. cc)
]
