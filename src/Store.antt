-- ===== src/Store.antt =====
-- state/store.py: `InMemoryResponseStore`. Every public method holds the store's lock from its
-- first read to its last write, so each is one step, and `now` is what its clock call returned.
-- Times are natural numbers. Arguments are taken after their type and blankness checks.
pub mod Record
pub mod Methods
pub mod Pins
pub mod Subtree
pub mod Graph
pub mod Removal
pub mod Chains
pub mod Budget
pub mod Insert
pub mod Put
pub mod Retention
pub mod Refusal
pub mod Calls
use ex_qserve.Base.{
  ℕ, zero, suc, ◌+◌, ◌-◌, String, Option, none, some, List, [], ◌∷◌, ◌++◌, ◌==◌, ltb, leb, nat_eq,
  Bool, true, false, if◌then◌else◌, ◌&&◌, ◌||◌, not, contains, is_some, is_empty, length,
}
use ex_qserve.Dict
use ex_qserve.Dict.{Dict, keys}
use ex_qserve.Dict.Weight.{total, size}
use Record.{PyValue, ResponseRecord, estimate_response_record_bytes}

pub data ResponseStoreDisposition : Type 0 where
  stored refused_too_large refused_missing_parent refused_model_mismatch : ResponseStoreDisposition
  refused_invalid_graph refused_budget : ResponseStoreDisposition

-- `_StoredRecord`; its field `record` is `response` here.
pub record StoredRecord : Type 0 where
  pub response : ResponseRecord
  pub estimated_bytes : ℕ
  pub expires_at : ℕ

pub record Config : Type 0 where
  pub max_records : ℕ
  pub ttl_seconds : ℕ
  pub max_total_bytes : ℕ

-- The fields that the methods change. A set of children is a list in the order of its iteration.
pub record Store : Type 0 where
  pub records : Dict StoredRecord
  pub children : Dict (List String)
  pub pins : Dict ℕ
  pub estimated_bytes : ℕ

unfoldable pub init : Store
init = record { records = []; children = []; pins = []; estimated_bytes = 0 }

-- siblings.discard(id)
unfoldable pub discard_id : String → List String → List String
discard_id k [] = []
discard_id k (x ∷ xs) = let rest = discard_id k xs in if x == k then rest else x ∷ rest

-- siblings.add(id)
unfoldable pub add_id : String → List String → List String
add_id k xs = if contains k xs then xs else xs ++ k ∷ []

-- No entry is kept for an empty set.
unfoldable pub put_siblings : String → List String → Dict (List String) → Dict (List String)
put_siblings parent [] children = Dict.pop parent children
put_siblings parent (x ∷ xs) children = Dict.set parent (x ∷ xs) children

unfoldable pub drop_sibling :
    String → String → Dict (List String) → Option (List String) → Dict (List String)
unfolding discard_id put_siblings
drop_sibling parent id children none = children
drop_sibling parent id children (some siblings) =
    put_siblings parent (discard_id id siblings) children

-- The parent's set without the child.
unfoldable pub drop_child : Option String → String → Dict (List String) → Dict (List String)
unfolding drop_sibling
drop_child none id children = children
drop_child (some parent) id children = drop_sibling parent id children (Dict.get parent children)

unfoldable pub remove_found : String → Store → Option StoredRecord → Store
unfolding drop_child
remove_found id s none = record s { pins = Dict.pop id s.pins; children = Dict.pop id s.children }
remove_found id s (some r) = record {
  records = Dict.pop id s.records;
  children = Dict.pop id (drop_child r.response.parent_response_id id s.children);
  pins = Dict.pop id s.pins;
  estimated_bytes = s.estimated_bytes - r.estimated_bytes;
}

unfoldable pub remove_one : String → Store → Store
unfolding remove_found
remove_one id s = remove_found id s (Dict.get id s.records)

-- stack.extend(children), with the top of the stack at the head.
unfoldable pub extend : List String → List String → List String
extend [] stack = stack
extend (c ∷ cs) stack = extend cs (c ∷ stack)

abbrev pub or_nil : Option (List String) → List String
or_nil none = []
or_nil (some cs) = cs

-- self._children.get(id, ())
abbrev pub children_of : Dict (List String) → String → List String
children_of children id = or_nil (Dict.get id children)

-- The loop over the stack. `seen` holds the visited ids, newest first: it is `reversed(ordered)`.
unfoldable pub walk : ℕ → Dict (List String) → List String → List String → List String
unfolding extend
walk zero children stack seen = seen
walk (suc fuel) children [] seen = seen
walk (suc fuel) children (current ∷ stack) seen = elim (contains current seen) [
  | true ↦ walk fuel children stack seen
  | false ↦ walk fuel children (extend (children_of children current) stack) (current ∷ seen)
]

abbrev pub walk_fuel : Dict (List String) → ℕ
walk_fuel children = suc (suc (total length children))

unfoldable pub subtree : String → Dict (List String) → List String
unfolding walk
subtree id children = walk (walk_fuel children) children (id ∷ []) []

unfoldable pub remove_all : List String → Store → Store
unfolding remove_one
remove_all [] s = s
remove_all (id ∷ ids) s = remove_all ids (remove_one id s)

unfoldable pub remove_subtree : String → Store → Store
unfolding subtree remove_all
remove_subtree id s = remove_all (subtree id s.children) s

abbrev pub or_zero : Option ℕ → ℕ
or_zero none = 0
or_zero (some n) = n

-- self._pins.get(id, 0)
abbrev pub pin_count : String → Dict ℕ → ℕ
pin_count id pins = or_zero (Dict.get id pins)

unfoldable pub expired_ids : ℕ → Dict ℕ → Dict StoredRecord → List String
expired_ids now pins [] = []
expired_ids now pins ((id, r) ∷ rest) =
    let others = expired_ids now pins rest in
    if leb r.expires_at now && nat_eq (pin_count id pins) 0 then id ∷ others else others

unfoldable pub purge_one : String → Store → Store
unfolding remove_subtree
purge_one id s = if is_some (Dict.get id s.records) then remove_subtree id s else s

unfoldable pub purge_ids : List String → Store → Store
unfolding purge_one
purge_ids [] s = s
purge_ids (id ∷ ids) s = purge_ids ids (purge_one id s)

unfoldable pub purge_expired : ℕ → Store → Store
unfolding purge_ids expired_ids
purge_expired now s = purge_ids (expired_ids now s.pins s.records) s

-- The oldest record that is neither protected nor pinned.
unfoldable pub victim : List String → Dict ℕ → Dict StoredRecord → Option String
victim protected pins [] = none
victim protected pins ((id, r) ∷ rest) =
    let other = victim protected pins rest in
    if not (contains id protected) && nat_eq (pin_count id pins) 0 then some id else other
