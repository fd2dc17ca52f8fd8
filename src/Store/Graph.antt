-- ===== src/Store/Graph.antt =====
-- What a single removal keeps of the store's graph: each id once, the bytes accounted for, each
-- record under its own id, and children that name their parent.
use ex_qserve.Base.{
  ℕ, String, ◌≡◌, refl, Option, none, some, List, [], ◌∷◌, ◌==◌, ◌&&◌, not, arith, eq_iff, Bool,
  true, false, contains, if◌then◌else◌,
}
use ex_qserve.Dict
use ex_qserve.Dict.{Dict, get-pop, get-set, IsUnique, pop-IsUnique}
use ex_qserve.Dict.Weight.{total, total-pop}
use ex_qserve.Store.{
  Store, StoredRecord, discard_id, put_siblings, drop_sibling, drop_child, remove_found,
  children_of, remove_one,
}

abbrev pub weight : StoredRecord → ℕ
weight r = r.estimated_bytes

abbrev pub is_parent : Option String → String → Bool
is_parent none p = false
is_parent (some q) p = q == p

-- The record's parent is `p`.
abbrev pub has_parent : Option StoredRecord → String → Bool
has_parent none p = false
has_parent (some r) p = is_parent r.response.parent_response_id p

abbrev pub IsLinked : Dict StoredRecord → Dict (List String) → Type 0
IsLinked records children =
    (p c : String)
    → contains c (children_of children p) ≡ true
    → has_parent (Dict.get c records) p ≡ true

abbrev pub IsKeyed : Dict StoredRecord → Type 0
IsKeyed records =
    (id : String) (r : StoredRecord) → Dict.get id records ≡ some r → r.response.response_id ≡ id

pub record IsGraph (s : Store) : Type 0 where
  pub unique : IsUnique s.records
  pub accounted : s.estimated_bytes ≡ total weight s.records
  pub keyed : IsKeyed s.records
  pub linked : IsLinked s.records s.children

contains-discard_id :
    (c k : String) (xs : List String)
    → contains c (discard_id k xs) ≡ (contains c xs && not (c == k))
unfolding discard_id
contains-discard_id c k [] = refl
contains-discard_id c k (x ∷ xs) =
    ground (arith, contains-discard_id c k xs, eq_iff x k, eq_iff x c, eq_iff c k)

children_of-pop :
    (id p : String) (children : Dict (List String))
    → children_of (Dict.pop id children) p ≡ (if id == p then [] else children_of children p)
children_of-pop id p children = ground (arith, get-pop id p children)

children_of-put_siblings :
    (q p : String) (xs : List String) (children : Dict (List String))
    → children_of (put_siblings q xs children) p ≡ (if q == p then xs else children_of children p)
unfolding put_siblings
children_of-put_siblings q p [] children = children_of-pop q p children
children_of-put_siblings q p (x ∷ xs) children = ground (arith, get-set q p (x ∷ xs) children)

-- The child is gone from its parent's set, and nothing else is.
contains-drop_sibling :
    (c id q p : String) (children : Dict (List String)) (o : Option (List String))
    → Dict.get q children ≡ o
    → contains c (children_of (drop_sibling q id children o) p)
      ≡ (contains c (children_of children p) && not (q == p && c == id))
unfolding drop_sibling
contains-drop_sibling c id q p children none e = ground (arith, eq_iff q p)
contains-drop_sibling c id q p children (some xs) e =
    rw children_of-put_siblings (ground (arith, eq_iff q p, contains-discard_id c id xs))

contains-drop_child :
    (c id q p : String) (children : Dict (List String))
    → contains c (children_of (drop_child (some q) id children) p)
      ≡ (contains c (children_of children p) && not (q == p && c == id))
unfolding drop_child
contains-drop_child c id q p children =
    contains-drop_sibling c id q p children (Dict.get q children) refl

linked-remove :
    (id p c : String) (r : StoredRecord) (o : Option String) (s : Store)
    → r.response.parent_response_id ≡ o
    → Dict.get id s.records ≡ some r
    → IsLinked s.records s.children
    → contains c (children_of (Dict.pop id (drop_child o id s.children)) p) ≡ true
    → has_parent (Dict.get c (Dict.pop id s.records)) p ≡ true
unfolding drop_child
linked-remove id p c r none s e f l h =
    rw get-pop (ground (arith, eq_iff id c, l p c, children_of-pop id p s.children))
linked-remove id p c r (some q) s e f l h = rw get-pop (
    ground (
      arith,
      eq_iff id c,
      eq_iff c id,
      l p c,
      children_of-pop id p (drop_child (some q) id s.children),
      contains-drop_child c id q p s.children,
    ))

remove_found-IsGraph :
    (id : String) (s : Store) (o : Option StoredRecord)
    → Dict.get id s.records ≡ o
    → IsGraph s
    → IsGraph (remove_found id s o)
unfolding remove_found
remove_found-IsGraph id s none e g = record {
  unique = g.unique;
  accounted = g.accounted;
  keyed = g.keyed;
  linked = λ p c h. ground (arith, g.linked p c, children_of-pop id p s.children);
}
remove_found-IsGraph id s (some r) e g = record {
  unique = pop-IsUnique id s.records g.unique;
  accounted = omega (arith, g.accounted, total-pop weight id r s.records g.unique e);
  keyed = λ k q h. ground (arith, g.keyed k q, get-pop id k s.records);
  linked = λ p c h. linked-remove id p c r _ s refl e g.linked h;
}

pub remove_one-IsGraph : (id : String) (s : Store) → IsGraph s → IsGraph (remove_one id s)
unfolding remove_one
remove_one-IsGraph id s g = remove_found-IsGraph id s (Dict.get id s.records) refl g

drop_child-le :
    (c id p : String) (o : Option String) (children : Dict (List String))
    → contains c (children_of (drop_child o id children) p) ≡ true
    → contains c (children_of children p) ≡ true
unfolding drop_child
drop_child-le c id p none children h = h
drop_child-le c id p (some q) children h = ground (arith, contains-drop_child c id q p children)

children-remove_found :
    (id p c : String) (s : Store) (o : Option StoredRecord)
    → contains c (children_of (remove_found id s o).children p) ≡ true
    → contains c (children_of s.children p) ≡ true
unfolding remove_found
children-remove_found id p c s none h = ground (arith, children_of-pop id p s.children)
children-remove_found id p c s (some r) h = ground (
  arith,
  children_of-pop id p (drop_child r.response.parent_response_id id s.children),
  drop_child-le c id p r.response.parent_response_id s.children,
)

-- A removal adds no child to any set.
pub children-remove_one :
    (id p c : String) (s : Store)
    → contains c (children_of (remove_one id s).children p) ≡ true
    → contains c (children_of s.children p) ≡ true
unfolding remove_one
children-remove_one id p c s = children-remove_found id p c s (Dict.get id s.records)
