-- ===== src/VisionCache/Updates.antt =====
-- runtime/vision_cache.py: `commit_request`, `put` and `clear`.
use mathlib.Core.List.{reverse}
use ex_qserve.Base.{
  ℕ, suc, ◌+◌, ◌-◌, String, Bool, true, false, not, ◌||◌, ◌&&◌, Option, none, some, List, [], ◌∷◌,
  if◌then◌else◌, ltb, leb, nat_eq, contains, length, is_some, is_empty,
}
use ex_qserve.Dict
use ex_qserve.Dict.{Dict, keys}
use ex_qserve.Dict.Weight.{total}
use ex_qserve.VisionCache.{
  Embedding, embedding_retained_tensor_bytes, RequestStats, no_stats, Entry, entry_bytes,
  VisionEmbeddingCache,
}

abbrev pub Item : Type 0
Item = String × Embedding

abbrev pub sizes : List Item → List (Option ℕ)
sizes [] = []
sizes ((key, e) ∷ items) = embedding_retained_tensor_bytes e ∷ sizes items

abbrev pub sum_known : List (Option ℕ) → ℕ
sum_known [] = 0
sum_known (none ∷ ns) = sum_known ns
sum_known (some n ∷ ns) = n + sum_known ns

abbrev pub all_known : List (Option ℕ) → Bool
all_known [] = true
all_known (n ∷ ns) = is_some n && all_known ns

abbrev pub has_duplicates : List String → Bool
has_duplicates [] = false
has_duplicates (k ∷ ks) = contains k ks || has_duplicates ks

-- dict[key] = value for each.
unfoldable pub set_all : Dict Entry → Dict Entry → Dict Entry
set_all [] d = d
set_all ((k, v) ∷ rest) d = set_all rest (Dict.set k v d)

-- The old entries that still fit, given newest first; the result too.
unfoldable pub select_old : List String → ℕ → Dict Entry → Dict Entry
select_old request available [] = []
select_old request available ((k, (e, n)) ∷ rest) =
    let kept = select_old request (available - n) rest in
    let others = select_old request available rest in
    if contains k request then others else if leb n available then (k, (e, n)) ∷ kept else others

-- `new_entry is None or new_entry[0] is not old_embedding`
abbrev pub is_replaced : Embedding → Option Entry → Bool
is_replaced old none = true
is_replaced old (some (e, n)) = not (nat_eq e.object_id old.object_id)

abbrev pub count_evicted : Dict Entry → Dict Entry → ℕ
count_evicted [] new = 0
count_evicted ((k, (e, n)) ∷ old) new =
    (if is_replaced e (Dict.get k new) then 1 else 0) + count_evicted old new

abbrev pub bytes_among : List String → Dict Entry → ℕ
bytes_among ks [] = 0
bytes_among ks ((k, (e, n)) ∷ d) = (if contains k ks then n else 0) + bytes_among ks d

pub data Commit : Type 0 where
  committed : RequestStats → Commit
  duplicate_keys commit_cancelled : Commit

-- popitem(last=False) while the bytes are over the budget.
unfoldable pub evict_oldest : ℕ → ℕ → Dict Entry → Dict Entry × ℕ × ℕ
evict_oldest budget bytes [] = ([], bytes, 0)
evict_oldest budget bytes ((k, (e, n)) ∷ d) =
    let (rest, left, evicted) = evict_oldest budget (bytes - n) d in
    if ltb budget bytes then (rest, left, suc evicted) else ((k, (e, n)) ∷ d, bytes, 0)

-- self._retained_tensor_bytes -= previous[1], if there was one.
abbrev pub without : ℕ → Option Entry → ℕ
without bytes none = bytes
without bytes (some old) = bytes - entry_bytes old

unfoldable pub clear : VisionEmbeddingCache → VisionEmbeddingCache
clear c = record c { entries = []; retained_tensor_bytes = 0; last_request = no_stats }

module _ (budget : ℕ) where
  -- How many of the first sizes fit together, and their bytes.
  unfoldable pub protected_prefix : ℕ → List (Option ℕ) → ℕ × ℕ
  protected_prefix bytes [] = (0, bytes)
  protected_prefix bytes (none ∷ ns) = (0, bytes)
  protected_prefix bytes (some n ∷ ns) =
      let (count, total_bytes) = protected_prefix (bytes + n) ns in
      if ltb budget (bytes + n) then (0, bytes) else (suc count, total_bytes)

  -- The items that the cache takes, their bytes, and how many it skips; each item stands with its
  -- size. The first `prefix` items have one.
  unfoldable pub admit : ℕ → ℕ → ℕ → List Item → List (Option ℕ) → Dict Entry × ℕ × ℕ
  admit prefix index retained ((key, e) ∷ items) (none ∷ ns) =
      let (rest, bytes, skipped) = admit prefix (suc index) retained items ns in
      (rest, bytes, suc skipped)
  admit prefix index retained ((key, e) ∷ items) (some n ∷ ns) =
      let (rest, bytes, skipped) = admit prefix (suc index) (retained + n) items ns in
      let (others, other_bytes, other_skipped) = admit prefix (suc index) retained items ns in
      if ltb index prefix || not (ltb budget (retained + n))
      then ((key, (e, n)) ∷ rest, bytes, skipped)
      else (others, other_bytes, suc other_skipped)
  admit prefix index retained _ _ = ([], retained, 0)

  abbrev pub prefix_of : List Item → ℕ × ℕ
  prefix_of items = protected_prefix 0 (sizes items)

  abbrev pub admitted : List Item → Dict Entry × ℕ × ℕ
  admitted items = admit (prefix_of items).0 0 0 items (sizes items)

  unfoldable pub new_entries : List Item → Dict Entry → Dict Entry
  unfolding set_all select_old admit protected_prefix
  new_entries items old =
      set_all (admitted items).0
        (set_all (reverse (select_old (keys items) (budget - (admitted items).1) (reverse old))) [])

  abbrev pub first_unretained : List Item → Option ℕ
  first_unretained items =
      if ltb (prefix_of items).0 (length items) then some (suc (prefix_of items).0) else none

  abbrev pub is_over_budget : List Item → Bool
  is_over_budget items =
      not (is_empty items)
      && (ltb 0 budget && (all_known (sizes items) && ltb budget (sum_known (sizes items))))

  abbrev pub request_stats : List Item → Dict Entry → RequestStats
  request_stats items new = record {
    unique_media_count = length items;
    unique_media_bytes = sum_known (sizes items);
    retained_media_bytes = bytes_among (keys (admitted items).0) new;
    protected_prefix_entries = (prefix_of items).0;
    protected_prefix_bytes = (prefix_of items).1;
    admission_skipped = (admitted items).2;
    first_unretained_media_ordinal = first_unretained items;
  }

  unfoldable pub committed_cache : List Item → VisionEmbeddingCache → VisionEmbeddingCache
  unfolding new_entries
  committed_cache items c = record c {
    entries = new_entries items c.entries;
    retained_tensor_bytes = total entry_bytes (new_entries items c.entries);
    evictions = c.evictions + count_evicted c.entries (new_entries items c.entries);
    admission_skipped = c.admission_skipped + (admitted items).2;
    over_budget_requests = c.over_budget_requests + (if is_over_budget items then 1 else 0);
    incomplete_prefix_retention_requests =
        c.incomplete_prefix_retention_requests
        + (if is_some (first_unretained items) then 1 else 0);
    last_request = request_stats items (new_entries items c.entries);
  }

  -- `allowed` is what the guard of the cancellation authority says; it is true without one.
  unfoldable pub commit_request :
      Bool → List Item → VisionEmbeddingCache → VisionEmbeddingCache × Commit
  unfolding committed_cache
  commit_request allowed items c =
      if has_duplicates (keys items)
      then (c, duplicate_keys)
      else if not allowed
      then (c, commit_cancelled)
      else (committed_cache items c, committed (request_stats items (new_entries items c.entries)))

  unfoldable pub store :
      String → Embedding → ℕ → VisionEmbeddingCache → Option Entry → VisionEmbeddingCache
  unfolding evict_oldest
  store key e n c previous =
      let (d, left, evicted) =
        evict_oldest budget (without c.retained_tensor_bytes previous + n)
          (Dict.set_last key (e, n) c.entries) in
      record c { entries = d; retained_tensor_bytes = left; evictions = c.evictions + evicted }

  unfoldable pub put_sized :
      String → Embedding → VisionEmbeddingCache → Option ℕ → VisionEmbeddingCache × Bool
  unfolding store
  put_sized key e c none = (c, false)
  put_sized key e c (some n) =
      if ltb budget n then (c, false) else (store key e n c (Dict.get key c.entries), true)

  unfoldable pub put : String → Embedding → VisionEmbeddingCache → VisionEmbeddingCache × Bool
  unfolding put_sized
  put key e c =
      if not (ltb 0 budget)
      then (c, false)
      else put_sized key e c (embedding_retained_tensor_bytes e)
