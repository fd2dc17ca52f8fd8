-- ===== src/VisionCache/Prefix.antt =====
-- runtime/vision_cache.py: a commit keeps the first items of the request that fit together.
use mathlib.Core.List.{reverse}
use ex_qserve.Base.{
  ℕ, zero, suc, ◌+◌, ◌-◌, String, true, false, not, ◌||◌, Option, none, some, List, [], ◌∷◌, ◌≡◌,
  refl, ◌∙◌, arith, if◌then◌else◌, ltb, contains, is_some, leb, length, ◌&&◌, ◌≤◌, Bool-cases, inl,
  inr, eq_iff, eq_refl,
}
use ex_qserve.Dict
use ex_qserve.Dict.{Dict, keys, IsUnique, get-set}
use ex_qserve.VisionCache.{Entry}
use ex_qserve.VisionCache.Updates.{
  Item, all_known, sum_known, first_unretained, sizes, set_all, select_old, protected_prefix,
  prefix_of, admit, admitted, new_entries, has_duplicates,
}

get-set_all :
    (k : String) (l d : Dict Entry)
    → IsUnique l
    → Dict.get k (set_all l d) ≡ (if is_some (Dict.get k l) then Dict.get k l else Dict.get k d)
unfolding set_all Dict.get
get-set_all k [] d u = refl
get-set_all k ((j, v) ∷ l) d u =
    ground (arith, get-set_all k l (Dict.set j v d) u.1, get-set j k v d, eq_iff j k)

-- Each of the first `p` items has a size, and the dictionary has its embedding with the size.
abbrev pub Kept : ℕ → List Item → List (Option ℕ) → Dict Entry → Type 0
Kept zero items ns d = Unit {0}
Kept (suc p) ((key, e) ∷ items) (some n ∷ ns) d = (Dict.get key d ≡ some (e, n)) × Kept p items ns d
Kept (suc p) _ _ d = false ≡ true

-- A dictionary that has all that another has keeps what it keeps.
Kept-mono :
    (p : ℕ) (items : List Item) (ns : List (Option ℕ)) (d f : Dict Entry)
    → ((k : String) (v : Entry)
        → contains k (keys items) ≡ true
        → Dict.get k d ≡ some v
        → Dict.get k f ≡ some v)
    → Kept p items ns d
    → Kept p items ns f
Kept-mono zero items ns d f h g = tt
Kept-mono (suc p) [] ns d f h g = g
Kept-mono (suc p) (i ∷ items) [] d f h g = g
Kept-mono (suc p) (i ∷ items) (none ∷ ns) d f h g = g
Kept-mono (suc p) ((key, e) ∷ items) (some n ∷ ns) d f h (g, gs) = (
  h key (e, n) (ground (arith, eq_refl key)) g,
  Kept-mono p items ns d f (λ k v m. h k v (ground arith)) gs,
)

length-sizes : (items : List Item) → length (sizes items) ≡ length items
length-sizes [] = refl
length-sizes ((key, e) ∷ items) = omega (arith, length-sizes items)

+-shift : (a b c : ℕ) → a + (b + c) ≡ (a + b) + c
+-shift a b c = omega arith

module _ (budget : ℕ) where
  get-admit :
      (prefix index retained : ℕ) (items : List Item) (ns : List (Option ℕ)) (k : String)
      → contains k (keys items) ≡ false
      → Dict.get k (admit budget prefix index retained items ns).0 ≡ none
  unfolding admit Dict.get
  get-admit prefix index retained [] ns k h = refl
  get-admit prefix index retained (i ∷ items) [] k h = refl
  get-admit prefix index retained ((key, e) ∷ items) (none ∷ ns) k h =
      get-admit prefix (suc index) retained items ns k (ground arith)
  get-admit prefix index retained ((key, e) ∷ items) (some n ∷ ns) k h = ground (
    arith,
    get-admit prefix (suc index) (retained + n) items ns k,
    get-admit prefix (suc index) retained items ns k,
  )

  admit-IsUnique :
      (prefix index retained : ℕ) (items : List Item) (ns : List (Option ℕ))
      → has_duplicates (keys items) ≡ false
      → IsUnique (admit budget prefix index retained items ns).0
  unfolding admit
  admit-IsUnique prefix index retained [] ns h = tt
  admit-IsUnique prefix index retained (i ∷ items) [] h = tt
  admit-IsUnique prefix index retained ((key, e) ∷ items) (none ∷ ns) h =
      admit-IsUnique prefix (suc index) retained items ns (ground arith)
  admit-IsUnique prefix index retained ((key, e) ∷ items) (some n ∷ ns) h =
      elim (Bool-cases (ltb index prefix || not (ltb budget (retained + n)))) [
        | inl t ↦ rw t (
          get-admit prefix (suc index) (retained + n) items ns key (ground arith),
          admit-IsUnique prefix (suc index) (retained + n) items ns (ground arith),
        )
        | inr t ↦ rw t (admit-IsUnique prefix (suc index) retained items ns (ground arith))
      ]

  before :
      (prefix index bytes : ℕ) (ns : List (Option ℕ))
      → prefix ≡ index + suc (protected_prefix budget bytes ns).0
      → ltb index prefix ≡ true
  before prefix index bytes ns p = ground arith

  admit-Kept :
      (prefix index retained : ℕ) (items : List Item)
      → (ns : List (Option ℕ)) → ns ≡ sizes items
      → has_duplicates (keys items) ≡ false
      → prefix ≡ index + (protected_prefix budget retained ns).0
      → Kept
          (protected_prefix budget retained ns).0
          items
          ns
          (admit budget prefix index retained items ns).0
  unfolding admit protected_prefix Dict.get
  admit-Kept prefix index retained items [] z h p = tt
  admit-Kept prefix index retained items (none ∷ ns) z h p = tt
  admit-Kept prefix index retained [] (some n ∷ ns) z h p = cc
  admit-Kept prefix index retained ((key, e) ∷ items) (some n ∷ ns) z h p =
      let rest = (admit budget prefix (suc index) (retained + n) items ns).0 in
      elim (Bool-cases (ltb budget (retained + n))) [
        | inl over ↦ rw over tt
        | inr fits ↦
            rw (fits, before prefix index (retained + n) ns (p ∙ rw fits refl))
              (
                ground (arith, eq_refl key),
                Kept-mono (protected_prefix budget (retained + n) ns).0 items ns rest
                    ((key, (e, n)) ∷ rest) (λ k v m g. ground (arith, eq_iff key k))
                    (admit-Kept prefix (suc index) (retained + n) items ns (cc) (ground arith)
                      (p ∙ rw fits (omega arith))),
              )
      ]

  -- For items with distinct keys, a commit keeps every item of its protected prefix: each has a
  -- size, and the new entries have its embedding with that size, whatever was cached before.
  pub prefix-Kept :
      (items : List Item) (old : Dict Entry)
      → has_duplicates (keys items) ≡ false
      → Kept (prefix_of budget items).0 items (sizes items) (new_entries budget items old)
  unfolding new_entries
  prefix-Kept items old h =
      let prefix = (prefix_of budget items).0 in
      let kept = (admitted budget items).0 in
      let others =
        set_all
          (reverse (select_old (keys items) (budget - (admitted budget items).1) (reverse old)))
          [] in
      Kept-mono prefix items (sizes items) kept (set_all kept others)
        (λ k v m g.
          get-set_all k kept others (admit-IsUnique prefix 0 0 items (sizes items) h) ∙ rw g refl)
        (admit-Kept prefix 0 0 items (sizes items) refl h (omega arith))

  prefix_complete :
      (bytes : ℕ) (ns : List (Option ℕ))
      → bytes ≤ budget
      → ltb (protected_prefix budget bytes ns).0 (length ns)
        ≡ not (all_known ns && leb (bytes + sum_known ns) budget)
  unfolding protected_prefix
  prefix_complete bytes [] h = ground arith
  prefix_complete bytes (none ∷ ns) h = ground arith
  prefix_complete bytes (some n ∷ ns) h = elim (Bool-cases (ltb budget (bytes + n))) [
    | inl over ↦ rw over (ground arith)
    | inr fits ↦
        rw fits (ground (arith, prefix_complete (bytes + n) ns, +-shift bytes n (sum_known ns)))
  ]

  -- A request has an item that the cache may not retain, its `first_unretained_media_ordinal`,
  -- exactly if an item has no known size or the sizes add up to more than the budget.
  pub unretained_iff :
      (items : List Item)
      → is_some (first_unretained budget items)
        ≡ not (all_known (sizes items) && leb (sum_known (sizes items)) budget)
  unretained_iff items = ground (arith, prefix_complete 0 (sizes items), length-sizes items)
