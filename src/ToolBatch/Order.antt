-- ===== src/ToolBatch/Order.antt =====
-- serving/tool_batch.py: what the gate publishes, over any sequence of inputs.
use ex_qserve.Base.{
  ℕ, String, Bool, List, [], ◌∷◌, ◌++◌, not, ◌≡◌, refl, sym, ap, ◌∙◌, arith, if◌then◌else◌, if_elim,
  is_some, append_assoc, append-nil, leb, contains, length,
}
use ex_qserve.Core.{
  ToolCallItem, GenerationEvent, tool_call_started, tool_call_arguments_delta, tool_call_completed,
}
use ex_qserve.Agent.{Json, ToolPolicy, ValidationIssue, validate_tool_calls}
use ex_qserve.ToolBatch.{
  Gate, BatchDecision, accept_event, complete, Input, started, delta, completed, passthrough,
  commit, feed, feed_all, is_open,
}

module _ (json : Json) (policy : ToolPolicy json) (atomic_parallel_tools : Bool) (limit : ℕ) where
  -- The event that an input carries.
  unfoldable pub event_of : Input json policy atomic_parallel_tools limit → List GenerationEvent
  event_of (started r c n i) = tool_call_started r c n i ∷ []
  event_of (delta r c d i) = tool_call_arguments_delta r c d i ∷ []
  event_of (completed r c) = tool_call_completed r c ∷ []
  event_of (passthrough e) = e ∷ []
  event_of commit = []

  abbrev pub taken : BatchDecision → List GenerationEvent → List GenerationEvent
  taken d events = if is_some d.failure then [] else events

  -- The events of the inputs that the gate does not refuse, in order.
  unfoldable pub accepted_events :
      List (Input json policy atomic_parallel_tools limit) → Gate → List GenerationEvent
  unfolding event_of
  accepted_events [] g = []
  accepted_events (i ∷ is) g =
      taken (feed json policy atomic_parallel_tools limit i g).1 (event_of i)
      ++ accepted_events is (feed json policy atomic_parallel_tools limit i g).0

  -- What a step publishes and leaves in the buffer.
  abbrev Conserves : Gate → List GenerationEvent → Gate × BatchDecision → Type 0
  Conserves g events result =
      result.1.events ++ result.0.buffered_events ≡ g.buffered_events ++ taken result.1 events

  accept_event-Conserves :
      (e : GenerationEvent) (g : Gate)
      → Conserves g (e ∷ []) (accept_event json policy atomic_parallel_tools limit e g)
  unfolding accept_event
  accept_event-Conserves e g = ground arith

  complete-Conserves :
      (r : String) (c : ToolCallItem) (g : Gate) (issues : List ValidationIssue)
      → Conserves g
          (tool_call_completed r c ∷ [])
          (complete json policy atomic_parallel_tools limit r c g issues)
  unfolding complete
  complete-Conserves r c g [] = refl
  complete-Conserves r c g (i ∷ is) = sym (append-nil g.buffered_events)

  feed-Conserves :
      (i : Input json policy atomic_parallel_tools limit) (g : Gate)
      → Conserves g (event_of i) (feed json policy atomic_parallel_tools limit i g)
  unfolding feed event_of
  feed-Conserves (started r c n i) g =
      let P = Conserves g (tool_call_started r c n i ∷ []) in
      if_elim P (not (is_open g.lifecycle)) (λ _. sym (append-nil g.buffered_events))
        λ _.
          if_elim P (contains c g.accepted_call_ids) (λ _. sym (append-nil g.buffered_events))
            λ _.
              if_elim P (leb limit (length g.accepted_call_ids))
                (λ _. sym (append-nil g.buffered_events))
                λ _.
                  accept_event-Conserves (tool_call_started r c n i)
                    (record g { accepted_call_ids = c ∷ g.accepted_call_ids })
  feed-Conserves (delta r c d i) g =
      let P = Conserves g (tool_call_arguments_delta r c d i ∷ []) in
      if_elim P (not (is_open g.lifecycle)) (λ _. sym (append-nil g.buffered_events))
        λ _.
          if_elim P (not (contains c g.accepted_call_ids)) (λ _. sym (append-nil g.buffered_events))
            λ _. accept_event-Conserves (tool_call_arguments_delta r c d i) g
  feed-Conserves (completed r c) g =
      let P = Conserves g (tool_call_completed r c ∷ []) in
      if_elim P (not (is_open g.lifecycle)) (λ _. sym (append-nil g.buffered_events))
        λ _.
          if_elim P (not (contains c.call_id g.accepted_call_ids))
            (λ _. sym (append-nil g.buffered_events))
            λ _.
              complete-Conserves r c g
                (validate_tool_calls json (g.completed_calls ++ c ∷ []) policy).0
  feed-Conserves (passthrough e) g = ground (arith, append-nil g.buffered_events)
  feed-Conserves commit g = ground (arith, append-nil g.buffered_events)

  -- Over any inputs, what the gate has published and what it still holds are together the events
  -- that it did not refuse, each once and in the order of arrival.
  pub publication_order :
      (is : List (Input json policy atomic_parallel_tools limit)) (g : Gate)
      → (feed_all json policy atomic_parallel_tools limit is g).1
          ++ (feed_all json policy atomic_parallel_tools limit is g).0.buffered_events
        ≡ g.buffered_events ++ accepted_events is g
  unfolding feed_all accepted_events
  publication_order [] g = sym (append-nil g.buffered_events)
  publication_order (i ∷ is) g =
      let h = feed json policy atomic_parallel_tools limit i g in
      let events = taken h.1 (event_of i) in
      let all = feed_all json policy atomic_parallel_tools limit is h.0 in
      append_assoc h.1.events all.1 all.0.buffered_events
      ∙ ap (λ l. h.1.events ++ l) (publication_order is h.0)
      ∙ sym (append_assoc h.1.events h.0.buffered_events (accepted_events is h.0))
      ∙ ap (λ l. l ++ accepted_events is h.0) (feed-Conserves i g)
      ∙ append_assoc g.buffered_events events (accepted_events is h.0)
