-- ===== src/ToolBatch/Bounds.antt =====
-- serving/tool_batch.py: what `ToolCallBatchGate` holds after any sequence of inputs.
use ex_qserve.Base.{
  ℕ, ◌≤◌, String, Bool, true, List, [], ◌∷◌, ◌++◌, ◌≡◌, ◌≢◌, refl, not, ◌||◌, arith, if_elim,
  is_empty, leb, contains, length,
}
use ex_qserve.Core.{ToolCallItem, GenerationEvent, tool_call_started, tool_call_arguments_delta}
use ex_qserve.Agent.{Json, ToolPolicy, ValidationIssue, validate_tool_calls}
use ex_qserve.Agent.Validity.{IsDistinct, ids, MeetsPolicy}
use ex_qserve.Agent.Acceptance.{validate_tool_calls_iff}
use ex_qserve.ToolBatch.{
  Gate, new_gate, BatchDecision, accept_event, complete, on_started, Input, started, delta,
  completed, passthrough, commit, feed, feed_all, is_open,
}

abbrev pub AreAmong : List String → List String → Type 0
AreAmong [] all = Unit {0}
AreAmong (x ∷ xs) all = (contains x all ≡ true) × AreAmong xs all

AreAmong-more : (xs all : List String) (y : String) → AreAmong xs all → AreAmong xs (y ∷ all)
AreAmong-more [] all y h = tt
AreAmong-more (x ∷ xs) all y (h, hs) = (ground arith, AreAmong-more xs all y hs)

AreAmong-ids-add :
    (cs : List ToolCallItem) (c : ToolCallItem) (all : List String)
    → AreAmong (ids cs) all
    → contains c.call_id all ≡ true
    → AreAmong (ids (cs ++ c ∷ [])) all
AreAmong-ids-add [] c all h e = (e, tt)
AreAmong-ids-add (x ∷ cs) c all (h, hs) e = (h, AreAmong-ids-add cs c all hs e)

module _ (json : Json) (policy : ToolPolicy json) (atomic_parallel_tools : Bool) (limit : ℕ) where
  -- The accepted ids are distinct and within the limit, every completed call was accepted, and the
  -- completed calls, if any, meet the policy.
  pub record AreSafe (accepted : List String) (calls : List ToolCallItem) : Type 0 where
    pub distinct : IsDistinct accepted
    pub few : length accepted ≤ limit
    pub accepted_first : AreAmong (ids calls) accepted
    pub meets_policy : calls ≢ [] → MeetsPolicy json policy calls

  abbrev pub IsSafe : Gate → Type 0
  IsSafe g = AreSafe g.accepted_call_ids g.completed_calls

  abbrev Leaves : Gate × BatchDecision → Type 0
  Leaves result = IsSafe result.0

  accept_event-IsSafe :
      (e : GenerationEvent) (g : Gate)
      → IsSafe g
      → Leaves (accept_event json policy atomic_parallel_tools limit e g)
  unfolding accept_event
  accept_event-IsSafe e g h =
      if_elim Leaves (atomic_parallel_tools || not (is_empty g.buffered_events)) (λ _. h) (λ _. h)

  on_started-IsSafe :
      (r c n : String) (i : ℕ) (g : Gate)
      → IsSafe g
      → Leaves (on_started json policy atomic_parallel_tools limit r c n i g)
  unfolding on_started
  on_started-IsSafe r c n i g h =
      if_elim Leaves (not (is_open g.lifecycle)) (λ _. h)
        λ _.
          if_elim Leaves (contains c g.accepted_call_ids) (λ _. h)
            λ fresh.
              if_elim Leaves (leb limit (length g.accepted_call_ids)) (λ _. h)
                λ room.
                  accept_event-IsSafe (tool_call_started r c n i)
                    (record g { accepted_call_ids = c ∷ g.accepted_call_ids })
                    (record {
                      distinct = (fresh, h.distinct);
                      few = ground arith;
                      accepted_first =
                          AreAmong-more (ids g.completed_calls) g.accepted_call_ids c
                            h.accepted_first;
                      meets_policy = h.meets_policy;
                    })

  complete-IsSafe :
      (r : String) (c : ToolCallItem) (g : Gate)
      → IsSafe g
      → contains c.call_id g.accepted_call_ids ≡ true
      → (issues : List ValidationIssue)
      → (validate_tool_calls json (g.completed_calls ++ c ∷ []) policy).0 ≡ issues
      → Leaves (complete json policy atomic_parallel_tools limit r c g issues)
  unfolding complete
  complete-IsSafe r c g h accepted [] e = record {
    distinct = h.distinct;
    few = h.few;
    accepted_first =
        AreAmong-ids-add g.completed_calls c g.accepted_call_ids h.accepted_first accepted;
    meets_policy = λ _. (validate_tool_calls_iff json policy (g.completed_calls ++ c ∷ [])).0 e;
  }
  complete-IsSafe r c g h accepted (x ∷ xs) e = h

  feed-IsSafe :
      (i : Input json policy atomic_parallel_tools limit) (g : Gate)
      → IsSafe g
      → Leaves (feed json policy atomic_parallel_tools limit i g)
  unfolding feed
  feed-IsSafe (started r c n i) g h = on_started-IsSafe r c n i g h
  feed-IsSafe (delta r c d i) g h =
      if_elim Leaves (not (is_open g.lifecycle)) (λ _. h)
        λ _.
          if_elim Leaves (not (contains c g.accepted_call_ids)) (λ _. h)
            λ _. accept_event-IsSafe (tool_call_arguments_delta r c d i) g h
  feed-IsSafe (completed r c) g h =
      if_elim Leaves (not (is_open g.lifecycle)) (λ _. h)
        λ _.
          if_elim Leaves (not (contains c.call_id g.accepted_call_ids)) (λ _. h)
            λ accepted.
              complete-IsSafe r c g h (ground arith)
                (validate_tool_calls json (g.completed_calls ++ c ∷ []) policy).0 refl
  feed-IsSafe (passthrough e) g h =
      if_elim Leaves (not (is_open g.lifecycle)) (λ _. h)
        λ _. if_elim Leaves (not (is_empty g.buffered_events)) (λ _. h) (λ _. h)
  feed-IsSafe commit g h =
      if_elim (λ (result : Gate × List GenerationEvent). IsSafe result.0)
        (not (is_open g.lifecycle)) (λ _. h) (λ _. h)

  feed_all-IsSafe :
      (is : List (Input json policy atomic_parallel_tools limit)) (g : Gate)
      → IsSafe g
      → IsSafe (feed_all json policy atomic_parallel_tools limit is g).0
  unfolding feed_all
  feed_all-IsSafe [] g h = h
  feed_all-IsSafe (i ∷ is) g h =
      feed_all-IsSafe is (feed json policy atomic_parallel_tools limit i g).0 (feed-IsSafe i g h)

  -- After any inputs to a new gate, the ids of the accepted calls are distinct and no more than the
  -- limit, every completed call has an accepted id, and the completed calls, if there are any, meet
  -- the tool policy as one batch.
  pub gate_IsSafe :
      (is : List (Input json policy atomic_parallel_tools limit))
      → IsSafe (feed_all json policy atomic_parallel_tools limit is new_gate).0
  gate_IsSafe is = feed_all-IsSafe is new_gate (record {
    distinct = tt;
    few = omega arith;
    accepted_first = tt;
    meets_policy = λ ne. absurd (ne refl);
  })
