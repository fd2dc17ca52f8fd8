-- ===== src/VisionCache/Bounds.antt =====
-- runtime/vision_cache.py: what a commit admits and keeps is within the budget.
use mathlib.Core.List.{reverse, reverse-cons}
use ex_qserve.Base.{
  ℕ, suc, ◌+◌, ◌-◌, ◌≤◌, String, Option, none, some, List, [], ◌∷◌, ◌≡◌, refl, ap, ◌∙◌, arith,
}
use ex_qserve.Dict
use ex_qserve.Dict.{
  Dict, keys, IsUnique, get-set, get-pop, get-append, pop-IsUnique, set_last-IsUnique, set-IsUnique,
}
use ex_qserve.Dict.Weight.{total, total-append}
use ex_qserve.VisionCache.{Entry, entry_bytes}
use ex_qserve.VisionCache.Updates.{
  Item, set_all, select_old, protected_prefix, admit, admitted, prefix_of, sizes, new_entries,
}

total-set-le :
    (k : String) (v : Entry) (d : Dict Entry)
    → total entry_bytes (Dict.set k v d) ≤ total entry_bytes d + entry_bytes v
unfolding Dict.set
total-set-le k v [] = omega arith
total-set-le k v ((j, w) ∷ d) = ground (arith, total-set-le k v d)

pub total-set_all-le :
    (l d : Dict Entry) → total entry_bytes (set_all l d) ≤ total entry_bytes d + total entry_bytes l
unfolding set_all
total-set_all-le [] d = omega arith
total-set_all-le ((k, v) ∷ l) d =
    omega (arith, total-set_all-le l (Dict.set k v d), total-set-le k v d)

pub set_all-IsUnique : (l d : Dict Entry) → IsUnique d → IsUnique (set_all l d)
unfolding set_all
set_all-IsUnique [] d u = u
set_all-IsUnique ((k, v) ∷ l) d u = set_all-IsUnique l (Dict.set k v d) (set-IsUnique k v d u)

total-select_old-le :
    (request : List String) (available : ℕ) (old : Dict Entry)
    → total entry_bytes (select_old request available old) ≤ available
unfolding select_old
total-select_old-le request available [] = omega arith
total-select_old-le request available ((k, (e, n)) ∷ old) = ground (
  arith,
  total-select_old-le request (available - n) old,
  total-select_old-le request available old,
)

total-reverse : (d : Dict Entry) → total entry_bytes (reverse d) ≡ total entry_bytes d
total-reverse [] = refl
total-reverse ((k, v) ∷ d) =
    ap (total entry_bytes) (reverse-cons (k, v) d)
    ∙ total-append entry_bytes (reverse d) k v
    ∙ omega (arith, total-reverse d)

module _ (budget : ℕ) where
  -- The admitted bytes are those of the admitted entries.
  admit-total :
      (prefix index retained : ℕ) (items : List Item) (ns : List (Option ℕ))
      → (admit budget prefix index retained items ns).1
        ≡ retained + total entry_bytes (admit budget prefix index retained items ns).0
  unfolding admit
  admit-total prefix index retained [] ns = omega arith
  admit-total prefix index retained (i ∷ items) [] = omega arith
  admit-total prefix index retained ((key, e) ∷ items) (none ∷ ns) =
      admit-total prefix (suc index) retained items ns
  admit-total prefix index retained ((key, e) ∷ items) (some n ∷ ns) = ground (
    arith,
    admit-total prefix (suc index) (retained + n) items ns,
    admit-total prefix (suc index) retained items ns,
  )

  -- From `index` on, at most `prefix` items are admitted without a test, and they fit.
  admit_le :
      (prefix index retained : ℕ) (items : List Item) (ns : List (Option ℕ))
      → retained ≤ budget
      → prefix ≤ index + (protected_prefix budget retained ns).0
      → (admit budget prefix index retained items ns).1 ≤ budget
  unfolding admit protected_prefix
  admit_le prefix index retained [] ns h p = h
  admit_le prefix index retained (i ∷ items) [] h p = h
  admit_le prefix index retained ((key, e) ∷ items) (none ∷ ns) h p =
      admit_le prefix (suc index) retained items ns h (omega arith)
  admit_le prefix index retained ((key, e) ∷ items) (some n ∷ ns) h p = ground (
    arith,
    admit_le prefix (suc index) (retained + n) items ns,
    admit_le prefix (suc index) retained items ns,
  )

  admitted_le : (items : List Item) → (admitted budget items).1 ≤ budget
  admitted_le items =
      admit_le (prefix_of budget items).0 0 0 items (sizes items) (omega arith) (omega arith)

  pub total-new_entries-le :
      (items : List Item) (old : Dict Entry)
      → total entry_bytes (new_entries budget items old) ≤ budget
  unfolding new_entries
  total-new_entries-le items old =
      let available = budget - (admitted budget items).1 in
      let selected = select_old (keys items) available (reverse old) in
      omega (
        arith,
        total-set_all-le (admitted budget items).0 (set_all (reverse selected) []),
        total-set_all-le (reverse selected) [],
        total-reverse selected,
        total-select_old-le (keys items) available (reverse old),
        admit-total (prefix_of budget items).0 0 0 items (sizes items),
        admitted_le items,
      )
