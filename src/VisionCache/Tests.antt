-- ===== src/VisionCache/Tests.antt =====
-- Tests of the vision cache, and the theorems at concrete requests.
use ex_qserve.Base.{ℕ, ◌≡◌, refl, true, false, not, ◌&&◌, some, List, [], ◌∷◌, leb, is_some}
use ex_qserve.Dict
use ex_qserve.VisionCache.{
  Embedding, cpu_tensor, other_tensor, no_deepstack, tensors, new_cache,
  embedding_retained_tensor_bytes,
}
use ex_qserve.VisionCache.Updates.{
  Item, sizes, all_known, sum_known, first_unretained, prefix_of, new_entries,
}
use ex_qserve.VisionCache.Invariant.{Call, gets, commits, puts, run, IsBounded, run-IsBounded}
use ex_qserve.VisionCache.Prefix.{Kept, prefix-Kept, unretained_iff}

program : Unit {0}
unfolding run new_entries embedding_retained_tensor_bytes Dict.get Dict.set_last Dict.set
program = tt

abbrev embedding : ℕ → ℕ → Embedding
embedding id numel = record {
  object_id = id;
  embeddings = some (cpu_tensor numel 2);
  deepstack_embeddings = tensors (cpu_tensor 1 2 ∷ []);
}

abbrev on_gpu : Embedding
on_gpu = record {
  object_id = 9;
  embeddings = some other_tensor;
  deepstack_embeddings = no_deepstack;
}

-- "a" and "b" fit in 40 bytes, "c" does not, and "d" is on a GPU.
abbrev items : List Item
items = ("a", embedding 1 4) ∷ ("b", embedding 2 9) ∷ ("c", embedding 3 9) ∷ ("d", on_gpu) ∷ []

abbrev calls : List (Call 40)
calls = puts "x" (embedding 7 3) ∷ commits true items ∷ gets "a" ∷ commits false [] ∷ []

after_calls : (run 40 calls new_cache).retained_tensor_bytes ≡ 38
unfolding program
after_calls = refl

after_calls-keys : Dict.keys (run 40 calls new_cache).entries ≡ "x" ∷ "b" ∷ "a" ∷ []
unfolding program
after_calls-keys = refl

run-IsBounded_example : IsBounded 40 (run 40 calls new_cache)
run-IsBounded_example = run-IsBounded 40 calls

prefix-Kept_example :
    Kept
      (prefix_of 40 items).0
      items
      (sizes items)
      (new_entries 40 items (run 40 calls new_cache).entries)
prefix-Kept_example = prefix-Kept 40 items (run 40 calls new_cache).entries refl

unretained_iff_example :
    is_some (first_unretained 40 items)
    ≡ not (all_known (sizes items) && leb (sum_known (sizes items)) 40)
unretained_iff_example = unretained_iff 40 items
