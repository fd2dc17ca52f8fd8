-- ===== src/VisionCache.antt =====
-- runtime/vision_cache.py: the byte-bounded cache of vision embeddings. A tensor is what the code
-- asks of it, and the `is` of two embeddings compares their `object_id`. The rate-limited warning
-- and its clock are left out.
pub mod Updates
pub mod Bounds
pub mod Invariant
pub mod Prefix
mod Tests
use mathlib.Core.List.{reverse}
use ex_qserve.Base.{
  ℕ, suc, ◌+◌, ◌-◌, ◌*◌, String, Bool, true, false, not, ◌||◌, ◌&&◌, Option, none, some, List, [],
  ◌∷◌, if◌then◌else◌, ltb, leb, nat_eq, contains, length, is_some, is_empty, ◌==◌,
}
use ex_qserve.Dict
use ex_qserve.Dict.{Dict, keys}
use ex_qserve.Dict.Weight.{total}

pub data Tensor : Type 0 where
  cpu_tensor : ℕ → ℕ → Tensor
  other_tensor : Tensor

pub data Deepstack : Type 0 where
  no_deepstack : Deepstack
  tensors : List Tensor → Deepstack
  other_deepstack : Deepstack

pub record Embedding : Type 0 where
  pub object_id : ℕ
  pub embeddings : Option Tensor
  pub deepstack_embeddings : Deepstack

abbrev pub tensor_retained_bytes : Tensor → Option ℕ
tensor_retained_bytes (cpu_tensor numel element_size) = some (numel * element_size)
tensor_retained_bytes other_tensor = none

abbrev pub plus : Option ℕ → Option ℕ → Option ℕ
plus (some a) (some b) = some (a + b)
plus _ _ = none

abbrev pub add_tensors : Option ℕ → List Tensor → Option ℕ
add_tensors retained [] = retained
add_tensors retained (t ∷ ts) = add_tensors (plus retained (tensor_retained_bytes t)) ts

abbrev pub with_deepstack : Option ℕ → Deepstack → Option ℕ
with_deepstack retained no_deepstack = retained
with_deepstack retained (tensors ts) = add_tensors retained ts
with_deepstack retained other_deepstack = none

abbrev pub bytes_of : Option Tensor → Option ℕ
bytes_of none = none
bytes_of (some t) = tensor_retained_bytes t

unfoldable pub embedding_retained_tensor_bytes : Embedding → Option ℕ
embedding_retained_tensor_bytes e = with_deepstack (bytes_of e.embeddings) e.deepstack_embeddings

pub record RequestStats : Type 0 where
  pub unique_media_count : ℕ
  pub unique_media_bytes : ℕ
  pub retained_media_bytes : ℕ
  pub protected_prefix_entries : ℕ
  pub protected_prefix_bytes : ℕ
  pub admission_skipped : ℕ
  pub first_unretained_media_ordinal : Option ℕ

abbrev pub no_stats : RequestStats
no_stats = record {
  unique_media_count = 0;
  unique_media_bytes = 0;
  retained_media_bytes = 0;
  protected_prefix_entries = 0;
  protected_prefix_bytes = 0;
  admission_skipped = 0;
  first_unretained_media_ordinal = none;
}

abbrev pub Entry : Type 0
Entry = Embedding × ℕ

abbrev pub entry_bytes : Entry → ℕ
entry_bytes (e, n) = n

pub record VisionEmbeddingCache : Type 0 where
  pub entries : Dict Entry
  pub retained_tensor_bytes : ℕ
  pub queries : ℕ
  pub hits : ℕ
  pub misses : ℕ
  pub evictions : ℕ
  pub admission_skipped : ℕ
  pub over_budget_requests : ℕ
  pub incomplete_prefix_retention_requests : ℕ
  pub last_request : RequestStats

abbrev pub new_cache : VisionEmbeddingCache
new_cache = record {
  entries = [];
  retained_tensor_bytes = 0;
  queries = 0;
  hits = 0;
  misses = 0;
  evictions = 0;
  admission_skipped = 0;
  over_budget_requests = 0;
  incomplete_prefix_retention_requests = 0;
  last_request = no_stats;
}

unfoldable pub found :
    String → VisionEmbeddingCache → Option Entry → VisionEmbeddingCache × Option Embedding
found key c none = (record c { queries = suc c.queries; misses = suc c.misses }, none)
found key c (some (e, n)) = (
  record c {
    queries = suc c.queries;
    entries = Dict.set_last key (e, n) c.entries;
    hits = suc c.hits;
  },
  some e,
)

unfoldable pub get : String → VisionEmbeddingCache → VisionEmbeddingCache × Option Embedding
unfolding found
get key c = found key c (Dict.get key c.entries)

abbrev pub embedding_of : Option Entry → Option Embedding
embedding_of none = none
embedding_of (some (e, n)) = some e

unfoldable pub peek : String → VisionEmbeddingCache → Option Embedding
peek key c = embedding_of (Dict.get key c.entries)

unfoldable pub resolve_key :
    String
    → Option Entry
    → VisionEmbeddingCache × Dict Embedding
    → VisionEmbeddingCache × Dict Embedding
resolve_key key none (c, resolved) = (record c { misses = suc c.misses }, resolved)
resolve_key key (some (e, n)) (c, resolved) =
    (record c { hits = suc c.hits }, Dict.set key e resolved)

unfoldable pub resolve_keys :
    List String → VisionEmbeddingCache × Dict Embedding → VisionEmbeddingCache × Dict Embedding
unfolding resolve_key
resolve_keys [] acc = acc
resolve_keys (key ∷ rest) acc = resolve_keys rest (resolve_key key (Dict.get key acc.0.entries) acc)

-- The keys are distinct, which the code checks first.
unfoldable pub snapshot_request :
    List String → VisionEmbeddingCache → VisionEmbeddingCache × Dict Embedding
unfolding resolve_keys
snapshot_request ks c = resolve_keys ks (record c { queries = c.queries + length ks }, [])
