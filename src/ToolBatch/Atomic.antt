-- ===== src/ToolBatch/Atomic.antt =====
-- serving/tool_batch.py: what a gate that is atomic publishes before the commit.
use ex_qserve.Base.{
  ℕ, String, Bool, true, false, not, ◌&&◌, List, [], ◌∷◌, ◌++◌, ◌≡◌, refl, arith, if_elim, contains,
}
use ex_qserve.Core.{
  ToolCallItem, GenerationEvent, tool_call_started, tool_call_arguments_delta, tool_call_completed,
}
use ex_qserve.Agent.{Json, ToolPolicy, ValidationIssue, validate_tool_calls}
use ex_qserve.ToolBatch.{
  Gate, BatchDecision, complete, Input, started, delta, completed, passthrough, commit, feed,
  feed_all, is_open,
}

abbrev is_tool : GenerationEvent → Bool
is_tool (tool_call_started r c n i) = true
is_tool (tool_call_arguments_delta r c d i) = true
is_tool (tool_call_completed r c) = true
is_tool _ = false

abbrev no_tool : List GenerationEvent → Bool
no_tool [] = true
no_tool (e ∷ es) = not (is_tool e) && no_tool es

no_tool-append :
    (es fs : List GenerationEvent)
    → no_tool es ≡ true
    → no_tool fs ≡ true
    → no_tool (es ++ fs) ≡ true
no_tool-append [] fs h k = k
no_tool-append (e ∷ es) fs h k = ground (arith, no_tool-append es fs)

module _ (json : Json) (policy : ToolPolicy json) (limit : ℕ) where
  -- No commit, and no tool event that bypasses the batch.
  abbrev before_commit : Input json policy true limit → Bool
  before_commit (passthrough e) = not (is_tool e)
  before_commit commit = false
  before_commit _ = true

  abbrev all_before_commit : List (Input json policy true limit) → Bool
  all_before_commit [] = true
  all_before_commit (i ∷ is) = before_commit i && all_before_commit is

  complete-no_tool :
      (r : String) (c : ToolCallItem) (g : Gate) (issues : List ValidationIssue)
      → no_tool (complete json policy true limit r c g issues).1.events ≡ true
  unfolding complete
  complete-no_tool r c g [] = refl
  complete-no_tool r c g (i ∷ is) = refl

  feed-no_tool :
      (i : Input json policy true limit) (g : Gate)
      → before_commit i ≡ true
      → no_tool (feed json policy true limit i g).1.events ≡ true
  unfolding feed
  feed-no_tool (started r c n i) g h = ground arith
  feed-no_tool (delta r c d i) g h = ground arith
  feed-no_tool (completed r c) g h =
      let P : Gate × BatchDecision → Type 0 = λ q. no_tool q.1.events ≡ true in
      if_elim P (not (is_open g.lifecycle)) (λ _. refl)
        λ _.
          if_elim P (not (contains c.call_id g.accepted_call_ids)) (λ _. refl)
            λ _.
              complete-no_tool r c g
                (validate_tool_calls json (g.completed_calls ++ c ∷ []) policy).0
  feed-no_tool (passthrough e) g h = ground arith
  feed-no_tool commit g h = absurd cc

  -- An atomic gate publishes no tool event before a commit, whatever its inputs until then are.
  pub atomic_shows_no_tool :
      (is : List (Input json policy true limit)) (g : Gate)
      → all_before_commit is ≡ true
      → no_tool (feed_all json policy true limit is g).1 ≡ true
  unfolding feed_all
  atomic_shows_no_tool [] g h = refl
  atomic_shows_no_tool (i ∷ is) g h =
      let q = feed json policy true limit i g in
      no_tool-append q.1.events (feed_all json policy true limit is q.0).1
        (feed-no_tool i g (ground arith)) (atomic_shows_no_tool is q.0 (ground arith))
