-- ===== src/Dict.antt =====
-- Python's `dict` and `OrderedDict` with text keys, in insertion order.
pub mod Weight
use ex_qserve.Base.{
  String, ◌≡◌, refl, Option, none, some, List, [], ◌∷◌, ◌++◌, ◌==◌, arith, eq_iff, Bool, true,
  false, if◌then◌else◌, is_some, not, ap,
}

abbrev pub Dict {ℓ} : Type ℓ → Type ℓ
Dict V = List (String × V)

module _ {ℓ} {V : Type ℓ} where
  -- d.get(k)
  unfoldable pub get : String → Dict V → Option V
  get k [] = none
  get k ((j, v) ∷ d) = if j == k then some v else get k d

  -- d.pop(k, None), del d[k]
  unfoldable pub pop : String → Dict V → Dict V
  pop k [] = []
  pop k ((j, v) ∷ d) = let rest = pop k d in if j == k then rest else (j, v) ∷ rest

  -- d[k] = v: a present key keeps its place, a new one goes to the end.
  unfoldable pub set : String → V → Dict V → Dict V
  set k v [] = (k, v) ∷ []
  set k v ((j, w) ∷ d) = let rest = set k v d in if j == k then (j, v) ∷ d else (j, w) ∷ rest

  -- d[k] = v; d.move_to_end(k)
  unfoldable pub set_last : String → V → Dict V → Dict V
  unfolding pop
  set_last k v d = pop k d ++ (k, v) ∷ []

  abbrev pub keys : Dict V → List String
  keys [] = []
  keys ((k, v) ∷ d) = k ∷ keys d

  -- Each key stands once.
  abbrev pub IsUnique : Dict V → Type ℓ
  IsUnique [] = Unit
  IsUnique ((k, v) ∷ d) = (get k d ≡ none) × IsUnique d

  pub get-pop : (k j : String) (d : Dict V) → get j (pop k d) ≡ (if k == j then none else get j d)
  unfolding get pop
  get-pop k j [] = ground arith
  get-pop k j ((i, v) ∷ d) = ground (arith, get-pop k j d, eq_iff i k, eq_iff i j, eq_iff k j)

  pub get-append :
      (k j : String) (v : V) (d : Dict V)
      → get j (d ++ (k, v) ∷ [])
        ≡ (if is_some (get j d) then get j d else if k == j then some v else none)
  unfolding get
  get-append k j v [] = ground arith
  get-append k j v ((i, w) ∷ d) = ground (arith, get-append k j v d)

  pub get-set :
      (k j : String) (v : V) (d : Dict V) → get j (set k v d) ≡ (if k == j then some v else get j d)
  unfolding get set
  get-set k j v [] = refl
  get-set k j v ((i, w) ∷ d) = ground (arith, get-set k j v d, eq_iff i k, eq_iff i j, eq_iff k j)

  pub get-set_last :
      (k j : String) (v : V) (d : Dict V)
      → get j (set_last k v d) ≡ (if k == j then some v else get j d)
  unfolding set_last
  get-set_last k j v d = ground (arith, get-append k j v (pop k d), get-pop k j d)

  pub pop-IsUnique : (k : String) (d : Dict V) → IsUnique d → IsUnique (pop k d)
  unfolding pop
  pop-IsUnique k [] u = tt
  pop-IsUnique k ((j, v) ∷ d) u = ground (arith, pop-IsUnique k d u.1, get-pop k j d)

  append-IsUnique :
      (k : String) (v : V) (d : Dict V) → get k d ≡ none → IsUnique d → IsUnique (d ++ (k, v) ∷ [])
  unfolding get
  append-IsUnique k v [] e u = (refl, tt)
  append-IsUnique k v ((j, w) ∷ d) e u =
      ground (arith, append-IsUnique k v d, get-append k j v d, eq_iff j k, eq_iff k j)

  pub set_last-IsUnique : (k : String) (v : V) (d : Dict V) → IsUnique d → IsUnique (set_last k v d)
  unfolding set_last
  set_last-IsUnique k v d u =
      append-IsUnique k v (pop k d) (ground (arith, get-pop k k d, eq_iff k k)) (pop-IsUnique k d u)

  pub set-IsUnique : (k : String) (v : V) (d : Dict V) → IsUnique d → IsUnique (set k v d)
  unfolding set get
  set-IsUnique k v [] u = (refl, tt)
  set-IsUnique k v ((j, w) ∷ d) u =
      ground (arith, set-IsUnique k v d u.1, get-set k j v d, eq_iff j k, eq_iff k j)

pub ruleset dict_laws = (get-pop, get-set, get-set_last)
