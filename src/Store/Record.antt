-- ===== src/Store/Record.antt =====
-- state/store.py: response records, and the estimate of the bytes that one retains.
use ex_qserve.Base.{ℕ, ◌+◌, String, len, Option, none, some, List, [], ◌∷◌}

-- The Python values that a canonical item is made of. `dataclass` lists its fields in order;
-- `other` is any further value, by its `repr`.
mutual
  pub data PyValue : Type 0 where
    py_none : PyValue
    str : String → PyValue
    bytes : ℕ → PyValue
    enum : PyValue → PyValue
    scalar : PyValue
    sequence : PyValues → PyValue
    dict : PyPairs → PyValue
    dataclass : PyFields → PyValue
    other : String → PyValue

  pub data PyValues : Type 0 where
    nil : PyValues
    cons : PyValue → PyValues → PyValues

  pub data PyPairs : Type 0 where
    empty : PyPairs
    pair : PyValue → PyValue → PyPairs → PyPairs

  pub data PyFields : Type 0 where
    end : PyFields
    field : String → PyValue → PyFields → PyFields

unfoldable mutual
  pub estimate_value_bytes : PyValue → ℕ
  estimate_value_bytes py_none = 1
  estimate_value_bytes (str s) = len s
  estimate_value_bytes (bytes n) = n
  estimate_value_bytes (enum v) = estimate_value_bytes v
  estimate_value_bytes scalar = 16
  estimate_value_bytes (sequence vs) = 16 + estimate_values vs
  estimate_value_bytes (dict ps) = 32 + estimate_pairs ps
  estimate_value_bytes (dataclass fs) = 32 + estimate_fields fs
  estimate_value_bytes (other r) = len r

  pub estimate_values : PyValues → ℕ
  estimate_values nil = 0
  estimate_values (cons v vs) = estimate_value_bytes v + estimate_values vs

  pub estimate_pairs : PyPairs → ℕ
  estimate_pairs empty = 0
  estimate_pairs (pair k v ps) = estimate_value_bytes k + estimate_value_bytes v + estimate_pairs ps

  pub estimate_fields : PyFields → ℕ
  estimate_fields end = 0
  estimate_fields (field name v fs) = len name + estimate_value_bytes v + estimate_fields fs

pub record ResponseRecord : Type 0 where
  pub response_id : String
  pub model : String
  pub parent_response_id : Option String
  pub delta_items : List PyValue

abbrev values : List PyValue → PyValues
values [] = nil
values (v ∷ vs) = cons v (values vs)

abbrev optional_str : Option String → PyValue
optional_str none = py_none
optional_str (some s) = str s

unfoldable pub estimate_response_record_bytes : ResponseRecord → ℕ
unfolding estimate_value_bytes
estimate_response_record_bytes r = estimate_value_bytes (
    dataclass (
      field "response_id" (str r.response_id) (
        field "model" (str r.model) (
          field "parent_response_id" (optional_str r.parent_response_id)
            (field "delta_items" (sequence (values r.delta_items)) end)))))
