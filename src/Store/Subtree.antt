-- ===== src/Store/Subtree.antt =====
-- The loop that collects a subtree of responses.
use ex_qserve.Base.{
  ℕ, zero, suc, ◌+◌, ◌≤◌, ◌<◌, String, ◌≡◌, refl, inl, inr, List, [], ◌∷◌, ◌||◌, arith, eq_iff,
  eq_refl, Bool, true, false, contains, length, Bool-cases, Option-cases,
}
use ex_qserve.Dict
use ex_qserve.Dict.{Dict}
use ex_qserve.Dict.Weight.{total, unseen, unseen_step, unseen_mono, unseen-le-total}
use ex_qserve.Store.{extend, or_nil, children_of, walk, walk_fuel, subtree}

length-extend : (cs stack : List String) → length (extend cs stack) ≡ length cs + length stack
unfolding extend
length-extend [] stack = omega arith
length-extend (c ∷ cs) stack = omega (arith, length-extend cs (c ∷ stack))

contains-extend :
    (k : String) (cs stack : List String)
    → contains k (extend cs stack) ≡ (contains k cs || contains k stack)
unfolding extend
contains-extend k [] stack = refl
contains-extend k (c ∷ cs) stack = ground (arith, contains-extend k cs (c ∷ stack))

module _ (children : Dict (List String)) where
  abbrev measure : List String → List String → ℕ
  measure stack seen = length stack + unseen length seen children

  measure_step :
      (k : String) (stack seen : List String)
      → contains k seen ≡ false
      → measure (extend (children_of children k) stack) (k ∷ seen) ≤ measure stack seen
  measure_step k stack seen n = elim (Option-cases (Dict.get k children)) [
    | inl e ↦
        rw (e, or_nil) (omega (arith, length-extend [] stack, unseen_mono length k seen children))
    | inr (cs, e) ↦
        rw (e, or_nil)
          (omega (arith, length-extend cs stack, unseen_step length k cs seen children n e))
  ]

  -- Every child of a seen id is seen or on the stack.
  abbrev Pending : List String → List String → Type 0
  Pending stack seen =
      (k c : String)
      → contains k seen ≡ true
      → contains c (children_of children k) ≡ true
      → (contains c seen || contains c stack) ≡ true

  Pending-skip :
      (current : String) (stack seen : List String)
      → contains current seen ≡ true
      → Pending (current ∷ stack) seen
      → Pending stack seen
  Pending-skip current stack seen h p k c hk hc = ground (arith, p k c hk hc, eq_iff current c)

  Pending-visit :
      (current : String) (stack seen : List String)
      → Pending (current ∷ stack) seen
      → Pending (extend (children_of children current) stack) (current ∷ seen)
  Pending-visit current stack seen p k c hk hc = ground (
    arith,
    p k c,
    contains-extend c (children_of children current) stack,
    eq_iff current c,
    eq_iff current k,
  )

  -- With fuel above the measure the loop ends with nothing pending.
  walk-closed :
      (fuel : ℕ) (stack seen : List String)
      → measure stack seen < fuel
      → Pending stack seen
      → Pending [] (walk fuel children stack seen)
  unfolding walk
  walk-closed zero stack seen h p = elim h [ ]
  walk-closed (suc fuel) [] seen h p = p
  walk-closed (suc fuel) (current ∷ stack) seen h p = elim (Bool-cases (contains current seen)) [
    | inl old ↦
        rw (old, walk)
          (walk-closed fuel stack seen (omega arith) (Pending-skip current stack seen old p))
    | inr new ↦
        rw (new, walk)
          (walk-closed fuel (extend (children_of children current) stack) (current ∷ seen)
            (omega (arith, measure_step current stack seen new))
            (Pending-visit current stack seen p))
  ]

  walk-keeps :
      (fuel : ℕ) (stack seen : List String) (k : String)
      → contains k seen ≡ true
      → contains k (walk fuel children stack seen) ≡ true
  unfolding walk
  walk-keeps zero stack seen k h = h
  walk-keeps (suc fuel) [] seen k h = h
  walk-keeps (suc fuel) (current ∷ stack) seen k h = elim (Bool-cases (contains current seen)) [
    | inl old ↦ rw (old, walk) (walk-keeps fuel stack seen k h)
    | inr new ↦
        rw (new, walk)
          (walk-keeps fuel (extend (children_of children current) stack) (current ∷ seen) k
            (ground arith))
  ]

  -- A set of ids that holds the parent of each of its members is never entered from outside.
  module _ (avoid : String → Bool)
      (upward : (k c : String)
        → contains c (children_of children k) ≡ true
        → avoid c ≡ true
        → avoid k ≡ true) where
    abbrev Outside : List String → Type 0
    Outside ids = (k : String) → contains k ids ≡ true → avoid k ≡ false

    Outside-visit :
        (current : String) (stack seen : List String)
        → Outside (current ∷ stack)
        → Outside (extend (children_of children current) stack)
    Outside-visit current stack seen p k h = ground (
      arith,
      p k,
      p current,
      upward current k,
      eq_refl current,
      contains-extend k (children_of children current) stack,
    )

    walk-Outside :
        (fuel : ℕ) (stack seen : List String)
        → Outside stack
        → Outside seen
        → Outside (walk fuel children stack seen)
    unfolding walk
    walk-Outside zero stack seen p q = q
    walk-Outside (suc fuel) [] seen p q = q
    walk-Outside (suc fuel) (current ∷ stack) seen p q = elim (Bool-cases (contains current seen)) [
      | inl old ↦ rw (old, walk) (walk-Outside fuel stack seen (λ k h. p k (ground arith)) q)
      | inr new ↦
          rw (new, walk)
            (walk-Outside fuel (extend (children_of children current) stack) (current ∷ seen)
              (Outside-visit current stack seen p)
              (λ k h. ground (arith, q k, p k, eq_iff current k)))
    ]

-- The result holds the root and every child of what it holds.
pub subtree_closed :
    (id : String) (children : Dict (List String))
    → (contains id (subtree id children) ≡ true)
      × ((k c : String)
          → contains k (subtree id children) ≡ true
          → contains c (children_of children k) ≡ true
          → contains c (subtree id children) ≡ true)
unfolding subtree
subtree_closed id children = (
  walk-keeps children (suc (total length children)) (extend (children_of children id) []) (id ∷ [])
      id (ground (arith, eq_refl id)),
  λ k c hk hc. ground (
    arith,
    walk-closed children (walk_fuel children) (id ∷ []) []
        (omega (arith, unseen-le-total length [] children)) (λ x y hx hy. cc) k c hk hc,
  ),
)

pub subtree_outside :
    (avoid : String → Bool) (id : String) (children : Dict (List String))
    → ((k c : String)
        → contains c (children_of children k) ≡ true
        → avoid c ≡ true
        → avoid k ≡ true)
    → avoid id ≡ false
    → (k : String) → contains k (subtree id children) ≡ true
    → avoid k ≡ false
unfolding subtree
subtree_outside avoid id children upward h =
    walk-Outside children avoid upward (walk_fuel children) (id ∷ []) []
      (λ k hk. ground (arith, eq_iff id k)) (λ k hk. cc)
