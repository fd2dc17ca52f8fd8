-- ===== src/Dict/Weight.antt =====
-- Sums over the entries of a dictionary, and how `pop` and `set_last` change them.
use ex_qserve.Dict.{set, set_last}
use ex_qserve.Base.{
  ℕ, ◌+◌, ◌≤◌, String, ◌≡◌, refl, none, some, List, [], ◌∷◌, ◌++◌, arith, eq_iff, false,
  if◌then◌else◌, contains, length,
}
use ex_qserve.Dict.{Dict, get, pop, IsUnique}

module _ {ℓ} {V : Type ℓ} (weight : V → ℕ) where
  -- sum(weight(v) for v in d.values())
  abbrev pub total : Dict V → ℕ
  total [] = 0
  total ((k, v) ∷ d) = weight v + total d

  -- The same over the keys that are not in `seen`.
  abbrev pub unseen : List String → Dict V → ℕ
  unseen seen [] = 0
  unseen seen ((k, v) ∷ d) = (if contains k seen then 0 else weight v) + unseen seen d

  pub total-append :
      (d : Dict V) (k : String) (v : V) → total (d ++ (k, v) ∷ []) ≡ total d + weight v
  total-append [] k v = omega arith
  total-append ((j, w) ∷ d) k v = omega (arith, total-append d k v)

  pub total-pop-none : (k : String) (d : Dict V) → get k d ≡ none → total (pop k d) ≡ total d
  unfolding get pop
  total-pop-none k [] e = refl
  total-pop-none k ((j, w) ∷ d) e = ground (arith, total-pop-none k d)

  pub total-pop :
      (k : String) (v : V) (d : Dict V)
      → IsUnique d
      → get k d ≡ some v
      → total (pop k d) + weight v ≡ total d
  unfolding get pop
  total-pop k v [] u e = ground arith
  total-pop k v ((j, w) ∷ d) u e =
      ground (arith, total-pop k v d u.1, total-pop-none k d, eq_iff j k)

  pub unseen-le-total : (seen : List String) (d : Dict V) → unseen seen d ≤ total d
  unseen-le-total seen [] = omega arith
  unseen-le-total seen ((k, v) ∷ d) = ground (arith, unseen-le-total seen d)

  pub unseen_mono :
      (k : String) (seen : List String) (d : Dict V) → unseen (k ∷ seen) d ≤ unseen seen d
  unseen_mono k seen [] = omega arith
  unseen_mono k seen ((j, v) ∷ d) = ground (arith, unseen_mono k seen d)

  -- A key that is new to `seen` takes its weight out of the sum.
  pub unseen_step :
      (k : String) (v : V) (seen : List String) (d : Dict V)
      → contains k seen ≡ false
      → get k d ≡ some v
      → unseen (k ∷ seen) d + weight v ≤ unseen seen d
  unfolding get
  unseen_step k v seen [] n e = ground arith
  unseen_step k v seen ((j, w) ∷ d) n e =
      ground (arith, unseen_step k v seen d n, unseen_mono k seen d, eq_iff j k, eq_iff k j)

module _ {ℓ} {V : Type ℓ} where
  pub pop-none : (k : String) (d : Dict V) → get k d ≡ none → pop k d ≡ d
  unfolding get pop
  pop-none k [] e = refl
  pop-none k ((j, w) ∷ d) e = ground (arith, pop-none k d)

  -- len(d)
  abbrev pub size : Dict V → ℕ
  size = total (λ v. 1)

pub size-length {ℓ} : {V : Type ℓ} (d : Dict V) → size d ≡ length d
size-length [] = refl
size-length ((k, v) ∷ d) = omega (arith, size-length d)

module _ {ℓ} {V : Type ℓ} (weight : V → ℕ) where
  pub total-pop-le : (k : String) (d : Dict V) → total weight (pop k d) ≤ total weight d
  unfolding pop
  total-pop-le k [] = omega arith
  total-pop-le k ((j, v) ∷ d) = ground (arith, total-pop-le k d)

  pub total-set_last_new :
      (k : String) (v : V) (d : Dict V)
      → get k d ≡ none
      → total weight (set_last k v d) ≡ total weight d + weight v
  unfolding set_last
  total-set_last_new k v d e =
      omega (arith, total-append weight (pop k d) k v, total-pop-none weight k d e)

  -- A new value of the same weight keeps the sum.
  pub total-set_last_same :
      (k : String) (v w : V) (d : Dict V)
      → IsUnique d
      → get k d ≡ some v
      → weight w ≡ weight v
      → total weight (set_last k w d) ≡ total weight d
  unfolding set_last
  total-set_last_same k v w d u e h =
      omega (arith, total-append weight (pop k d) k w, total-pop weight k v d u e)

  -- A new key adds its weight.
  pub total-set_new :
      (k : String) (v : V) (d : Dict V)
      → get k d ≡ none
      → total weight (set k v d) ≡ total weight d + weight v
  unfolding get set
  total-set_new k v [] e = omega arith
  total-set_new k v ((j, w) ∷ d) e = ground (arith, total-set_new k v d)
