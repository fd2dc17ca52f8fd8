-- ===== src/VisionCache/Invariant.antt =====
-- runtime/vision_cache.py: the byte count of the cache is exact and within the budget after any
-- calls.
use mathlib.Core.List.{reverse}
use ex_qserve.Base.{
  ℕ, ◌+◌, ◌-◌, ◌≤◌, String, Bool, not, Option, none, some, List, [], ◌∷◌, length, ◌≡◌, refl, sym,
  ◌∙◌, arith, if_elim, ltb,
}
use ex_qserve.Dict
use ex_qserve.Dict.{
  Dict, keys, IsUnique, get-set, get-pop, get-append, pop-IsUnique, set_last-IsUnique, set-IsUnique,
}
use ex_qserve.Dict.Weight.{total, total-append, total-pop, total-pop-none, total-set_last_same}
use ex_qserve.VisionCache.Bounds.{set_all-IsUnique, total-new_entries-le}
use ex_qserve.VisionCache.{
  get, Embedding, embedding_retained_tensor_bytes, Entry, entry_bytes, VisionEmbeddingCache,
  new_cache, found, resolve_key, resolve_keys, snapshot_request,
}
use ex_qserve.VisionCache.Updates.{
  Commit, Item, set_all, select_old, evict_oldest, without, clear, admitted, new_entries,
  committed_cache, commit_request, has_duplicates, store, put_sized, put,
}

module _ (budget : ℕ) where
  total-evict_oldest :
      (bytes : ℕ) (d : Dict Entry)
      → total entry_bytes d ≡ bytes
      → ((evict_oldest budget bytes d).1 ≡ total entry_bytes (evict_oldest budget bytes d).0)
        × ((evict_oldest budget bytes d).1 ≤ budget)
  unfolding evict_oldest
  total-evict_oldest bytes [] h = (sym h, omega (arith, h))
  total-evict_oldest bytes ((k, (e, n)) ∷ d) h =
      ground (arith, total-evict_oldest (bytes - n) d (omega (arith, h)))

  evict_oldest-IsUnique :
      (bytes : ℕ) (d : Dict Entry) → IsUnique d → IsUnique (evict_oldest budget bytes d).0
  unfolding evict_oldest
  evict_oldest-IsUnique bytes [] u = tt
  evict_oldest-IsUnique bytes ((k, (e, n)) ∷ d) u =
      if_elim (λ (r : Dict Entry × ℕ × ℕ). IsUnique r.0) (ltb budget bytes)
        (λ _. evict_oldest-IsUnique (bytes - n) d u.1) (λ _. u)

  -- Each key stands once, the byte count is the sum over the entries, and it is within the budget.
  pub record IsBounded (c : VisionEmbeddingCache) : Type 0 where
    pub unique : IsUnique c.entries
    pub exact : c.retained_tensor_bytes ≡ total entry_bytes c.entries
    pub within : c.retained_tensor_bytes ≤ budget

  committed_cache-IsBounded :
      (items : List Item) (c : VisionEmbeddingCache) → IsBounded (committed_cache budget items c)
  unfolding committed_cache new_entries
  committed_cache-IsBounded items c = record {
    unique =
        set_all-IsUnique (admitted budget items).0
          (set_all
            (reverse
              (select_old (keys items) (budget - (admitted budget items).1) (reverse c.entries)))
            [])
          (set_all-IsUnique
            (reverse
              (select_old (keys items) (budget - (admitted budget items).1) (reverse c.entries)))
            [] tt);
    exact = refl;
    within = total-new_entries-le budget items c.entries;
  }

  without-total :
      (key : String) (v : Entry) (c : VisionEmbeddingCache) (o : Option Entry)
      → IsBounded c
      → Dict.get key c.entries ≡ o
      → total entry_bytes (Dict.set_last key v c.entries)
        ≡ without c.retained_tensor_bytes o + entry_bytes v
  unfolding Dict.set_last
  without-total key v c none h e = omega (
    arith,
    total-append entry_bytes (Dict.pop key c.entries) key v,
    total-pop-none entry_bytes key c.entries e,
    h.exact,
  )
  without-total key v c (some old) h e = omega (
    arith,
    total-append entry_bytes (Dict.pop key c.entries) key v,
    total-pop entry_bytes key old c.entries h.unique e,
    h.exact,
  )

  store-IsBounded :
      (key : String) (e : Embedding) (n : ℕ) (c : VisionEmbeddingCache)
      → IsBounded c
      → IsBounded (store budget key e n c (Dict.get key c.entries))
  unfolding store
  store-IsBounded key e n c h =
      let o = Dict.get key c.entries in
      let d = Dict.set_last key (e, n) c.entries in
      let bytes = without c.retained_tensor_bytes o + n in
      let sums = total-evict_oldest bytes d (without-total key (e, n) c o h refl) in
      record {
        unique = evict_oldest-IsUnique bytes d (set_last-IsUnique key (e, n) c.entries h.unique);
        exact = sums.0;
        within = sums.1;
      }

  put_sized-IsBounded :
      (key : String) (e : Embedding) (c : VisionEmbeddingCache) (n : Option ℕ)
      → IsBounded c
      → IsBounded (put_sized budget key e c n).0
  unfolding put_sized
  put_sized-IsBounded key e c none h = h
  put_sized-IsBounded key e c (some n) h =
      if_elim (λ (r : VisionEmbeddingCache × Bool). IsBounded r.0) (ltb budget n) (λ _. h)
        (λ _. store-IsBounded key e n c h)

  found-IsBounded :
      (key : String) (c : VisionEmbeddingCache) (o : Option Entry)
      → IsBounded c
      → Dict.get key c.entries ≡ o
      → IsBounded (found key c o).0
  unfolding found
  found-IsBounded key c none h e = record { unique = h.unique; exact = h.exact; within = h.within }
  found-IsBounded key c (some v) h e = record {
    unique = set_last-IsUnique key v c.entries h.unique;
    exact = h.exact ∙ sym (total-set_last_same entry_bytes key v v c.entries h.unique e refl);
    within = h.within;
  }

  resolve_key-IsBounded :
      (k : String) (o : Option Entry) (acc : VisionEmbeddingCache × Dict Embedding)
      → IsBounded acc.0
      → IsBounded (resolve_key k o acc).0
  unfolding resolve_key
  resolve_key-IsBounded k none (c, resolved) h = record {
    unique = h.unique;
    exact = h.exact;
    within = h.within;
  }
  resolve_key-IsBounded k (some (e, n)) (c, resolved) h = record {
    unique = h.unique;
    exact = h.exact;
    within = h.within;
  }

  resolve_keys-IsBounded :
      (ks : List String) (acc : VisionEmbeddingCache × Dict Embedding)
      → IsBounded acc.0
      → IsBounded (resolve_keys ks acc).0
  unfolding resolve_keys
  resolve_keys-IsBounded [] acc h = h
  resolve_keys-IsBounded (k ∷ ks) acc h =
      resolve_keys-IsBounded ks (resolve_key k (Dict.get k acc.0.entries) acc)
        (resolve_key-IsBounded k (Dict.get k acc.0.entries) acc h)

  -- A call of a method that changes the cache.
  pub data Call : Type 0 where
    gets : String → Call
    snapshots : List String → Call
    commits : Bool → List Item → Call
    puts : String → Embedding → Call
    clears : Call

  unfoldable pub step : Call → VisionEmbeddingCache → VisionEmbeddingCache
  unfolding get snapshot_request commit_request put clear
  step (gets key) c = (get key c).0
  step (snapshots ks) c = (snapshot_request ks c).0
  step (commits allowed items) c = (commit_request budget allowed items c).0
  step (puts key e) c = (put budget key e c).0
  step clears c = clear c

  unfoldable pub run : List Call → VisionEmbeddingCache → VisionEmbeddingCache
  unfolding step
  run [] c = c
  run (call ∷ calls) c = run calls (step call c)

  step-IsBounded : (call : Call) (c : VisionEmbeddingCache) → IsBounded c → IsBounded (step call c)
  unfolding step
  step-IsBounded (gets key) c h = found-IsBounded key c (Dict.get key c.entries) h refl
  step-IsBounded (snapshots ks) c h =
      resolve_keys-IsBounded ks (record c { queries = c.queries + length ks }, [])
        (record { unique = h.unique; exact = h.exact; within = h.within })
  step-IsBounded (commits allowed items) c h =
      if_elim (λ (r : VisionEmbeddingCache × Commit). IsBounded r.0) (has_duplicates (keys items))
        (λ _. h)
        λ _.
          if_elim (λ (r : VisionEmbeddingCache × Commit). IsBounded r.0) (not allowed) (λ _. h)
            λ _. committed_cache-IsBounded items c
  step-IsBounded (puts key e) c h =
      if_elim (λ (r : VisionEmbeddingCache × Bool). IsBounded r.0) (not (ltb 0 budget)) (λ _. h)
        λ _. put_sized-IsBounded key e c (embedding_retained_tensor_bytes e) h
  step-IsBounded clears c h = record { unique = tt; exact = refl; within = omega arith }

  run_from-IsBounded :
      (calls : List Call) (c : VisionEmbeddingCache) → IsBounded c → IsBounded (run calls c)
  unfolding run
  run_from-IsBounded [] c h = h
  run_from-IsBounded (call ∷ calls) c h =
      run_from-IsBounded calls (step call c) (step-IsBounded call c h)

  -- After any calls to a new cache, commits that are refused or cancelled included, each key stands
  -- once, the byte count is the sum of the sizes of the entries, and it is within the budget.
  pub run-IsBounded : (calls : List Call) → IsBounded (run calls new_cache)
  run-IsBounded calls =
      run_from-IsBounded calls new_cache
        (record { unique = tt; exact = refl; within = omega arith })
