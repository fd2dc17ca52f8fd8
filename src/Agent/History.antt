-- ===== src/Agent/History.antt =====
-- agent/validation.py: `validate_tool_history`, over items of which only the calls and the results
-- of tools matter.
use ex_qserve.Base.{
  ℕ, suc, String, Bool, true, not, ◌&&◌, List, [], ◌∷◌, ◌≡◌, refl, arith, if◌then◌else◌, contains,
  is_empty,
}
use ex_qserve.Agent.{
  ValidationIssue, ValidationCode, duplicate_tool_call_id, unknown_tool_result,
  duplicate_tool_result, at_name, at_index,
}

-- A `ToolResultItem` and a `MultimodalToolResultItem` are both a `tool_result`.
pub data HistoryItem : Type 0 where
  tool_call : String → HistoryItem
  tool_result : String → HistoryItem
  other_item : HistoryItem

abbrev item_issue : ValidationCode → ℕ → ValidationIssue
item_issue code index = record {
  code = code;
  path = at_name "items" ∷ at_index index ∷ at_name "call_id" ∷ [];
}

-- The loop, with the calls seen and the calls resolved.
unfoldable pub judge_history :
    ℕ → List String → List String → List HistoryItem → List ValidationIssue
judge_history index seen resolved [] = []
judge_history index seen resolved (tool_call id ∷ items) =
    let same = judge_history (suc index) seen resolved items in
    let more = judge_history (suc index) (id ∷ seen) resolved items in
    if contains id seen then item_issue duplicate_tool_call_id index ∷ same else more
judge_history index seen resolved (tool_result id ∷ items) =
    let same = judge_history (suc index) seen resolved items in
    let more = judge_history (suc index) seen (id ∷ resolved) items in
    if not (contains id seen)
    then item_issue unknown_tool_result index ∷ same
    else if contains id resolved
    then item_issue duplicate_tool_result index ∷ same
    else more
judge_history index seen resolved (other_item ∷ items) =
    judge_history (suc index) seen resolved items

unfoldable pub validate_tool_history : List HistoryItem → List ValidationIssue
unfolding judge_history
validate_tool_history items = judge_history 0 [] [] items

abbrev pub called : List HistoryItem → List String
called [] = []
called (tool_call id ∷ items) = id ∷ called items
called (_ ∷ items) = called items

abbrev pub answered : List HistoryItem → List String
answered [] = []
answered (tool_result id ∷ items) = id ∷ answered items
answered (_ ∷ items) = answered items

-- The ids are distinct, and none is among those given.
abbrev pub are_new : List String → List String → Bool
are_new ids [] = true
are_new ids (x ∷ xs) = not (contains x ids) && are_new (x ∷ ids) xs

-- Each result comes after a call with its id.
abbrev pub are_preceded : List String → List HistoryItem → Bool
are_preceded before [] = true
are_preceded before (tool_call id ∷ items) = are_preceded (id ∷ before) items
are_preceded before (tool_result id ∷ items) = contains id before && are_preceded before items
are_preceded before (other_item ∷ items) = are_preceded before items

judge_history-empty :
    (items : List HistoryItem) (index : ℕ) (seen resolved : List String)
    → is_empty (judge_history index seen resolved items) ≡ (
        are_new seen (called items)
        && (are_new resolved (answered items) && are_preceded seen items))
unfolding judge_history
judge_history-empty [] index seen resolved = refl
judge_history-empty (tool_call id ∷ items) index seen resolved =
    ground (arith, judge_history-empty items (suc index) (id ∷ seen) resolved)
judge_history-empty (tool_result id ∷ items) index seen resolved =
    ground (arith, judge_history-empty items (suc index) seen (id ∷ resolved))
judge_history-empty (other_item ∷ items) index seen resolved =
    judge_history-empty items (suc index) seen resolved

-- A history has no issue exactly if its calls have distinct ids, its results have distinct ids, and
-- each result comes after a call with its id.
pub validate_tool_history_iff :
    (items : List HistoryItem)
    → is_empty (validate_tool_history items)
      ≡ (are_new [] (called items) && (are_new [] (answered items) && are_preceded [] items))
unfolding validate_tool_history
validate_tool_history_iff items = judge_history-empty items 0 [] []
