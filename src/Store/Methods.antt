-- ===== src/Store/Methods.antt =====
-- state/store.py: parent chains, eviction, and the public methods of `InMemoryResponseStore`.
use mathlib.Core.List.{reverse}
use ex_qserve.Base.{
  ℕ, zero, suc, ◌+◌, String, Option, none, some, List, [], ◌∷◌, ◌++◌, ◌==◌, ltb, Bool, true, false,
  if◌then◌else◌, ◌&&◌, ◌||◌, not, contains, is_some, is_empty,
}
use ex_qserve.Dict
use ex_qserve.Dict.{Dict, keys}
use ex_qserve.Dict.Weight.{size}
use ex_qserve.Store.Record.{PyValue, ResponseRecord, estimate_response_record_bytes}
use ex_qserve.Store.{
  Store, Config, StoredRecord, ResponseStoreDisposition, stored, refused_too_large,
  refused_missing_parent, refused_model_mismatch, refused_invalid_graph, refused_budget, add_id,
  remove_subtree, purge_expired, victim, children_of,
}

-- How a walk towards the root ends: `complete` lists the ids from the start to the root.
pub data Chain : Type 0 where
  complete : List String → Chain
  cycle missing foreign exhausted : Chain

unfoldable pub prepend : String → Chain → Chain
prepend id (complete ids) = complete (id ∷ ids)
prepend id cycle = cycle
prepend id missing = missing
prepend id foreign = foreign
prepend id exhausted = exhausted

-- The loop that `materialize`, `pin_chain` and `_parent_chain_is_valid_locked` share.
unfoldable pub follow : ℕ → Dict StoredRecord → String → Option String → List String → Chain
unfolding prepend
follow zero records model current seen = exhausted
follow (suc fuel) records model none seen = complete []
follow (suc fuel) records model (some current) seen = elim (contains current seen) [
  | true ↦ cycle
  | false ↦ elim (Dict.get current records) [
    | none ↦ missing
    | some r ↦
        let rest = follow fuel records model r.response.parent_response_id (current ∷ seen) in
        if r.response.model == model then prepend current rest else foreign
  ]
]

abbrev pub chain_fuel : Dict StoredRecord → ℕ
chain_fuel records = suc (size records)

abbrev pub is_complete : Chain → Bool
is_complete (complete ids) = true
is_complete _ = false

unfoldable pub parent_chain_is_valid : String → String → String → Dict StoredRecord → Bool
unfolding follow
parent_chain_is_valid parent child model records =
    is_complete (follow (chain_fuel records) records model (some parent) (child ∷ []))

-- The ids from `current` to the root; `put` calls it on a chain that was found valid.
unfoldable pub ancestors : ℕ → Dict StoredRecord → Option String → List String
ancestors zero records current = []
ancestors (suc fuel) records none = []
ancestors (suc fuel) records (some current) = elim (Dict.get current records) [
  | none ↦ current ∷ []
  | some r ↦ current ∷ ancestors fuel records r.response.parent_response_id
]

-- stored.expires_at = now + ttl; records.move_to_end(id)
unfoldable pub refresh : ℕ → String → Dict StoredRecord → Dict StoredRecord
refresh expires id records = elim (Dict.get id records) [
  | none ↦ records
  | some r ↦ Dict.set_last id (record r { expires_at = expires }) records
]

unfoldable pub refresh_all : ℕ → List String → Dict StoredRecord → Dict StoredRecord
unfolding refresh
refresh_all expires [] records = records
refresh_all expires (id ∷ ids) records = refresh_all expires ids (refresh expires id records)

-- The deltas of a chain, in the order of the list.
unfoldable pub collect : List String → Dict StoredRecord → List PyValue
collect [] records = []
collect (id ∷ ids) records = elim (Dict.get id records) [
  | none ↦ collect ids records
  | some r ↦ r.response.delta_items ++ collect ids records
]

pub data Materialized : Type 0 where
  items : List PyValue → Materialized
  absent : Materialized
  invariant_error : Materialized

unfoldable pub judge_parent :
    ResponseRecord → Store → String → Option StoredRecord → Option ResponseStoreDisposition
unfolding parent_chain_is_valid
judge_parent r s parent_id none = some refused_missing_parent
judge_parent r s parent_id (some parent) =
    if not (parent.response.model == r.model)
    then some refused_model_mismatch
    else if not (parent_chain_is_valid parent_id r.response_id r.model s.records)
    then some refused_invalid_graph
    else none

unfoldable pub judge_parent_id :
    ResponseRecord → Store → Option String → Option ResponseStoreDisposition
unfolding judge_parent
judge_parent_id r s none = none
judge_parent_id r s (some parent_id) = judge_parent r s parent_id (Dict.get parent_id s.records)

-- The checks of the parent; `none` lets the record in.
unfoldable pub check_parent : ResponseRecord → Store → Option ResponseStoreDisposition
unfolding judge_parent_id
check_parent r s = judge_parent_id r s r.parent_response_id

-- What has the id goes, with its subtree.
unfoldable pub cleared : String → Store → Store
unfolding remove_subtree
cleared id s = if is_some (Dict.get id s.records) then remove_subtree id s else s

-- self._children.setdefault(parent_id, set()).add(id)
unfoldable pub add_child : Option String → String → Dict (List String) → Dict (List String)
unfolding add_id
add_child none id children = children
add_child (some parent) id children =
    Dict.set parent (add_id id (children_of children parent)) children

unfoldable pub discard : String → ℕ → Store → Store
unfolding remove_subtree purge_expired
discard id now s = remove_subtree id (purge_expired now s)

module _ (c : Config) where
  open c use {max_records, ttl_seconds, max_total_bytes}

  unfoldable pub over_budget : Store → Bool
  over_budget s =
      not (is_empty s.records)
      && (ltb max_records (size s.records) || ltb max_total_bytes s.estimated_bytes)

  -- The loop, and whether it ended within the budget.
  unfoldable pub evict_to_budget : ℕ → List String → Store → Store × Bool
  unfolding over_budget victim
  evict_to_budget zero protected s = (s, not (over_budget s))
  evict_to_budget (suc fuel) protected s = elim (over_budget s) [
    | false ↦ (s, true)
    | true ↦ elim (victim protected s.pins s.records) [
      | none ↦ (s, false)
      | some id ↦ evict_to_budget fuel protected (remove_subtree id s)
    ]
  ]

  unfoldable pub get : String → ℕ → Store → Store × Option ResponseRecord
  unfolding refresh purge_expired
  get id now s =
      let t = purge_expired now s in
      elim (Dict.get id t.records) [
        | none ↦ (t, none)
        | some r ↦
            (record t { records = refresh (now + ttl_seconds) id t.records }, some r.response)
      ]

  unfoldable pub materialize_chain : String → ℕ → Store → Chain → Store × Materialized
  unfolding refresh_all collect remove_subtree
  materialize_chain id now t (complete ids) = (
    record t { records = refresh_all (now + ttl_seconds) (reverse ids) t.records },
    items (collect (reverse ids) t.records),
  )
  materialize_chain id now t missing = (remove_subtree id t, absent)
  materialize_chain id now t cycle = (t, invariant_error)
  materialize_chain id now t foreign = (t, invariant_error)
  materialize_chain id now t exhausted = (t, invariant_error)

  unfoldable pub materialize : String → ℕ → Store → Store × Materialized
  unfolding materialize_chain purge_expired follow
  materialize id now s =
      let t = purge_expired now s in
      elim (Dict.get id t.records) [
        | none ↦ (t, absent)
        | some first ↦
            materialize_chain id now t
              (follow (chain_fuel t.records) t.records first.response.model (some id) [])
      ]

  abbrev pub new_record : ℕ → ResponseRecord → StoredRecord
  new_record now r = record {
    response = r;
    estimated_bytes = estimate_response_record_bytes r;
    expires_at = now + ttl_seconds;
  }

  unfoldable pub add_record : ℕ → ResponseRecord → Store → Store
  unfolding add_child
  add_record now r s = record s {
    records = Dict.set_last r.response_id (new_record now r) s.records;
    children = add_child r.parent_response_id r.response_id s.children;
    estimated_bytes = s.estimated_bytes + estimate_response_record_bytes r;
  }

  unfoldable pub evicted_ids : String → List String → Store → List String
  evicted_ids id [] s = []
  evicted_ids id (k ∷ ks) s =
      let rest = evicted_ids id ks s in
      if not (k == id) && not (is_some (Dict.get k s.records)) then k ∷ rest else rest

  -- The store with the record in place of what had its id.
  unfoldable pub replaced : ℕ → ResponseRecord → Store → Store
  unfolding add_record cleared
  replaced now r s = add_record now r (cleared r.response_id s)

  abbrev pub protected_ids : ResponseRecord → Store → List String
  protected_ids r s =
      r.response_id ∷ ancestors (chain_fuel s.records) s.records r.parent_response_id

  -- The commit or the rollback. The pins are not among what is put back.
  unfoldable pub settle :
      ResponseRecord → Store → Store × Bool → Store × ResponseStoreDisposition × List String
  unfolding evicted_ids
  settle r before (after, true) =
      (after, stored, evicted_ids r.response_id (keys before.records) after)
  settle r before (after, false) = (
    record after {
      records = before.records;
      children = before.children;
      estimated_bytes = before.estimated_bytes;
    },
    refused_budget,
    [],
  )

  unfoldable pub insert :
      ℕ → ResponseRecord → Store → Store × ResponseStoreDisposition × List String
  unfolding settle replaced evict_to_budget ancestors
  insert now r s =
      settle r s
        (evict_to_budget (size (replaced now r s).records) (protected_ids r s) (replaced now r s))

  unfoldable pub put_with_evictions :
      ResponseRecord → ℕ → Store → Store × ResponseStoreDisposition × List String
  unfolding insert check_parent purge_expired
  put_with_evictions r now s =
      let t = purge_expired now s in
      if ltb max_total_bytes (estimate_response_record_bytes r)
      then (t, refused_too_large, [])
      else elim (check_parent r t) [ some refusal ↦ (t, refusal, []) | none ↦ insert now r t ]

  unfoldable pub put : ResponseRecord → ℕ → Store → Store × ResponseStoreDisposition
  unfolding put_with_evictions
  put r now s = let (t, disposition, evicted) = put_with_evictions r now s in (t, disposition)
