-- ===== src/Agent/Validity.antt =====
-- `validate_tool_calls` accepts a batch exactly when the batch meets the policy.
use ex_qserve.Base.{eq_refl}
use ex_qserve.Agent.{PathPart}
use ex_qserve.Base.{
  ℕ, suc, ◌≤◌, String, true, false, Option, none, some, List, [], ◌∷◌, ◌++◌, ◌≡◌, ◌≢◌, contains,
  length, arith, eq_iff, refl,
}
use ex_qserve.Core.{ToolCallItem}
use ex_qserve.Agent.{
  Json, ParsedJson, object, not_object, duplicate_key, invalid, FunctionTool, ToolPolicy, no_tools,
  find_tool, schema_result, judge_arguments, name_issues, judge_tool, id_issues, order_issues,
  judge_call, judge_calls, is_named, is_required,
}

pub append_nil_left {ℓ} : {A : Type ℓ} (xs ys : List A) → xs ++ ys ≡ [] → xs ≡ []
append_nil_left [] ys e = refl
append_nil_left (x ∷ xs) ys e = cc

pub append_nil_right {ℓ} : {A : Type ℓ} (xs ys : List A) → xs ++ ys ≡ [] → ys ≡ []
append_nil_right [] ys e = e
append_nil_right (x ∷ xs) ys e = cc

abbrev pub ids : List ToolCallItem → List String
ids [] = []
ids (call ∷ calls) = call.call_id ∷ ids calls

abbrev pub IsDistinct : List String → Type 0
IsDistinct [] = Unit {0}
IsDistinct (x ∷ xs) = (contains x xs ≡ false) × IsDistinct xs

module _ (json : Json) (policy : ToolPolicy json) where
  open json use {Object, Schema, parse, violations, dumps}

  -- The call names a declared tool, the named one where the choice names one, and its arguments are
  -- an object that meets the tool's schema.
  pub record IsAccepted (call : ToolCallItem) : Type 0 where
    pub tool : FunctionTool json
    pub declared : find_tool json call.name policy.tools ≡ some tool
    pub chosen : is_named policy.mode ≡ true → call.name ≡ policy.choice_name
    pub arguments : Object
    pub parsed : parse call.arguments_json ≡ object arguments
    pub meets_schema : violations tool.parameters arguments ≡ []

  abbrev pub AreAccepted : ℕ → List ToolCallItem → Type 0
  AreAccepted position [] = Unit {0}
  AreAccepted position (call ∷ calls) =
      (call.index ≡ position) × IsAccepted call × AreAccepted (suc position) calls

  -- What the policy asks of a batch, with no reference to the checks.
  pub record MeetsPolicy (calls : List ToolCallItem) : Type 0 where
    pub allowed : policy.mode ≡ no_tools → calls ≡ []
    pub present : is_required policy.mode ≡ true → calls ≢ []
    pub few : policy.allow_parallel ≡ false → length calls ≤ 1
    pub distinct : IsDistinct (ids calls)
    pub accepted : AreAccepted 0 calls

  schema_result_nil :
      (position : ℕ) (o : Object) (vs : List (List PathPart))
      → (schema_result json position o vs).0 ≡ []
      → vs ≡ []
  unfolding schema_result
  schema_result_nil position o [] e = refl
  schema_result_nil position o (v ∷ vs) e = cc

  judge_arguments_nil :
      (tool : FunctionTool json) (position : ℕ) (p : ParsedJson Object)
      → (judge_arguments json tool position p).0 ≡ []
      → (o : Object) × (p ≡ object o) × (violations tool.parameters o ≡ [])
  unfolding judge_arguments
  judge_arguments_nil tool position (object o) e = (o, refl, schema_result_nil position o _ e)
  judge_arguments_nil tool position not_object e = absurd (cc)
  judge_arguments_nil tool position duplicate_key e = absurd (cc)
  judge_arguments_nil tool position invalid e = absurd (cc)

  name_issues_nil :
      (position : ℕ) (call : ToolCallItem)
      → name_issues json policy position call ≡ []
      → is_named policy.mode ≡ true
      → call.name ≡ policy.choice_name
  unfolding name_issues
  name_issues_nil position call e n = ground (arith, eq_iff call.name policy.choice_name)

  judge_tool_nil :
      (position : ℕ) (call : ToolCallItem) (o : Option (FunctionTool json))
      → find_tool json call.name policy.tools ≡ o
      → (judge_tool json policy position call o).0 ≡ []
      → IsAccepted call
  unfolding judge_tool
  judge_tool_nil position call none d e = absurd (cc)
  judge_tool_nil position call (some tool) d e =
      let (o, p, v) =
        judge_arguments_nil tool position (parse call.arguments_json) (append_nil_right _ _ e) in
      record {
        tool = tool;
        declared = d;
        chosen = λ n. name_issues_nil position call (append_nil_left _ _ e) n;
        arguments = o;
        parsed = p;
        meets_schema = v;
      }

  pub name_issues_accepted :
      (position : ℕ) (call : ToolCallItem)
      → IsAccepted call
      → name_issues json policy position call ≡ []
  unfolding name_issues
  name_issues_accepted position call a =
      ground (arith, a.chosen, eq_iff call.name policy.choice_name)

  pub judge_tool_accepted :
      (position : ℕ) (call : ToolCallItem)
      → IsAccepted call
      → (judge_tool json policy position call (find_tool json call.name policy.tools)).0 ≡ []
  unfolding judge_tool judge_arguments schema_result
  judge_tool_accepted position call a =
      rw (a.declared, name_issues_accepted position call a, a.parsed, a.meets_schema)

  -- No id of the calls has been seen.
  abbrev pub AreFresh : List String → List ToolCallItem → Type 0
  AreFresh seen calls = (k : String) → contains k (ids calls) ≡ true → contains k seen ≡ false

  id_nil :
      (seen : List String) (position : ℕ) (call : ToolCallItem)
      → id_issues json seen position call ≡ []
      → contains call.call_id seen ≡ false
  unfolding id_issues
  id_nil seen position call e = ground arith

  order_nil :
      (position : ℕ) (call : ToolCallItem)
      → order_issues json position call ≡ []
      → call.index ≡ position
  unfolding order_issues
  order_nil position call e = ground arith

  judge_call_nil :
      (seen : List String) (position : ℕ) (call : ToolCallItem)
      → (judge_call json policy seen position call).0 ≡ []
      → (contains call.call_id seen ≡ false) × (call.index ≡ position) × IsAccepted call
  unfolding judge_call id_issues order_issues
  judge_call_nil seen position call e =
      let tail = append_nil_right (id_issues json seen position call) _ e in
      (
        id_nil seen position call (append_nil_left _ _ e),
        order_nil position call (append_nil_left _ _ tail),
        judge_tool_nil position call (find_tool json call.name policy.tools) refl
            (append_nil_right (order_issues json position call) _ tail),
      )

  pub judge_calls_nil :
      (seen : List String) (position : ℕ) (calls : List ToolCallItem)
      → (judge_calls json policy seen position calls).0 ≡ []
      → AreFresh seen calls × IsDistinct (ids calls) × AreAccepted position calls
  unfolding judge_calls
  judge_calls_nil seen position [] e = (λ k h. cc, tt, tt)
  judge_calls_nil seen position (call ∷ calls) e =
      let (new, order, accepted) = judge_call_nil seen position call (append_nil_left _ _ e) in
      let (fresh, distinct, rest) =
        judge_calls_nil (call.call_id ∷ seen) (suc position) calls
          (append_nil_right (judge_call json policy seen position call).0 _ e) in
      (
        λ k h. ground (arith, fresh k, new, eq_iff call.call_id k),
        (ground (arith, fresh call.call_id, eq_refl call.call_id), distinct),
        (order, accepted, rest),
      )
