-- ===== src/Store/Insert.antt =====
-- `put`: the record in place of what had its id, and the ids that eviction leaves alone.
use ex_qserve.Store.Budget.{IsUpward}
use ex_qserve.Base.{
  ℕ, String, ◌≡◌, Option, none, some, List, [], ◌∷◌, ◌++◌, ◌==◌, ◌||◌, ◌&&◌, arith, eq_iff, eq_refl,
  true, false, contains, is_some, if◌then◌else◌,
}
use ex_qserve.Dict
use ex_qserve.Dict.{Dict, get-pop, get-set, get-set_last, set_last-IsUnique}
use ex_qserve.Dict.Weight.{total-set_last_new}
use ex_qserve.Store.{Store, Config, StoredRecord, children_of, add_id}
use ex_qserve.Store.Record.{ResponseRecord}
use ex_qserve.Store.Methods.{
  new_record, cleared, add_child, add_record, replaced, follow, ancestors, protected_ids,
  chain_fuel, is_complete,
}
use ex_qserve.Store.Graph.{IsGraph, IsLinked, weight, has_parent, is_parent}
use ex_qserve.Store.Subtree.{subtree_closed, subtree_outside}
use ex_qserve.Store.Chains.{complete-closed, complete-avoids, ancestors_head}
use ex_qserve.Store.Removal.{get-remove_subtree, remove_subtree-IsGraph, if-IsGraph}

contains-append :
    (c k : String) (xs : List String) → contains c (xs ++ k ∷ []) ≡ (contains c xs || k == c)
contains-append c k [] = ground arith
contains-append c k (x ∷ xs) = ground (arith, contains-append c k xs)

contains-add_id :
    (c k : String) (xs : List String) → contains c (add_id k xs) ≡ (contains c xs || k == c)
unfolding add_id
contains-add_id c k xs = ground (arith, contains-append c k xs, eq_iff k c)

-- The parent's set has the child, and no other set changes.
contains-add_child :
    (c id p : String) (o : Option String) (children : Dict (List String))
    → contains c (children_of (add_child o id children) p)
      ≡ (contains c (children_of children p) || (is_parent o p && id == c))
unfolding add_child
contains-add_child c id p none children = ground arith
contains-add_child c id p (some q) children = ground (
  arith,
  get-set q p (add_id id (children_of children q)) children,
  contains-add_id c id (children_of children q),
  eq_iff q p,
)

module _ (cfg : Config) (now : ℕ) (r : ResponseRecord) (s : Store) where
  abbrev entry : StoredRecord
  entry = new_record cfg now r

  add_record-IsLinked :
      IsLinked s.records s.children
      → Dict.get r.response_id s.records ≡ none
      → IsLinked (add_record cfg now r s).records (add_record cfg now r s).children
  unfolding add_record
  add_record-IsLinked l fresh p c h = rw get-set_last (
      ground (
        arith,
        l p c,
        contains-add_child c r.response_id p r.parent_response_id s.children,
        eq_iff r.response_id c,
      ))

  pub add_record-IsGraph :
      IsGraph s → Dict.get r.response_id s.records ≡ none → IsGraph (add_record cfg now r s)
  unfolding add_record
  add_record-IsGraph g fresh = record {
    unique = set_last-IsUnique r.response_id entry s.records g.unique;
    accounted =
        omega (arith, g.accounted, total-set_last_new weight r.response_id entry s.records fresh);
    keyed = λ k q h.
        ground (
          arith,
          g.keyed k q,
          get-set_last r.response_id k entry s.records,
          eq_iff r.response_id k,
        );
    linked = add_record-IsLinked g.linked fresh;
  }

pub get-cleared : (id : String) (s : Store) → Dict.get id (cleared id s).records ≡ none
unfolding cleared
get-cleared id s = ground (arith, get-remove_subtree id s id, (subtree_closed id s.children).0)

pub replaced-IsGraph :
    (cfg : Config) (now : ℕ) (r : ResponseRecord) (s : Store)
    → IsGraph s
    → IsGraph (replaced cfg now r s)
unfolding replaced cleared
replaced-IsGraph cfg now r s g =
    add_record-IsGraph cfg now r (cleared r.response_id s)
      (if-IsGraph (is_some (Dict.get r.response_id s.records))
        (remove_subtree-IsGraph r.response_id s g) g)
      (get-cleared r.response_id s)

-- The ids above the new record hold the parent of each of their members, and not its own id.
module _ (cfg : Config) (now : ℕ) (r : ResponseRecord) (s : Store) (g : IsGraph s)
    (valid : is_complete
        (follow (chain_fuel s.records) s.records r.model r.parent_response_id (r.response_id ∷ []))
      ≡ true) where
  abbrev above : List String
  above = ancestors (chain_fuel s.records) s.records r.parent_response_id

  above-closed :
      (k x : String)
      → has_parent (Dict.get x s.records) k ≡ true
      → contains x above ≡ true
      → contains k above ≡ true
  above-closed =
      complete-closed s.records r.model (chain_fuel s.records) r.parent_response_id
        (r.response_id ∷ []) valid

  pub own_id_not_above : contains r.response_id above ≡ false
  own_id_not_above =
      complete-avoids s.records r.model (chain_fuel s.records) r.parent_response_id
        (r.response_id ∷ []) valid r.response_id (ground (arith, eq_refl r.response_id))

  -- Clearing the id takes none of them.
  pub get-cleared-above :
      (k : String)
      → contains k above ≡ true
      → Dict.get k (cleared r.response_id s).records ≡ Dict.get k s.records
  unfolding cleared
  get-cleared-above k h = ground (
    arith,
    get-remove_subtree r.response_id s k,
    subtree_outside (λ i. contains i above) r.response_id s.children
        (λ p x hx. above-closed p x (g.linked p x hx)) own_id_not_above k,
  )

  has_parent-cleared :
      (k x : String)
      → has_parent (Dict.get x (cleared r.response_id s).records) k ≡ true
      → has_parent (Dict.get x s.records) k ≡ true
  unfolding cleared
  has_parent-cleared k x h = ground (arith, get-remove_subtree r.response_id s x)

  pub get-replaced :
      (k : String)
      → Dict.get k (replaced cfg now r s).records ≡ (
          if r.response_id == k
          then some (new_record cfg now r)
          else Dict.get k (cleared r.response_id s).records)
  unfolding replaced add_record
  get-replaced k =
      get-set_last r.response_id k (new_record cfg now r) (cleared r.response_id s).records

  pub protected-IsUpward : IsUpward cfg (protected_ids cfg r s) (replaced cfg now r s)
  protected-IsUpward k x hx hp = ground (
    arith,
    (replaced-IsGraph cfg now r s g).linked k x hx,
    get-replaced x,
    has_parent-cleared k x,
    above-closed k x,
    ancestors_head s.records r.model (chain_fuel s.records) r.parent_response_id
        (r.response_id ∷ []) k valid,
  )
