-- ===== src/Guarantees/Soundness.antt =====
-- serving/guarantees.py: no plan promises less than what was requested.
use mathlib.Core.Path.{subst}
use mathlib.Core.Bool.{false≢true}
use ex_qserve.Base.{
  String, ◌≡◌, refl, sym, ap, ◌∙◌, Bool, true, false, not, ◌&&◌, Option, none, some, List, [], ◌∷◌,
  if◌then◌else◌, is_some, contains, arith, if_elim, eq_iff,
}
use ex_qserve.Core.{none_, schema}
use ex_qserve.Agent.{
  Json, FunctionTool, ToolPolicy, ToolChoiceMode, no_tools, auto, required, named,
}
use ex_qserve.Guarantees.{
  GenerationCapabilitySnapshot, fail_closed, allow_validation_only, is_unknown, is_none,
  guarantee_satisfies, ToolGenerationConstraint, branch_guarantee, ToolConstraintPlan, ToolPlan,
  planned, unsupported, factory_raised, StructuredOutputSpec, is_fail_closed,
  resolve_structured_output, any_strict, any_named_strict, strict_in, has_exposed_strict_tool,
  exposed_strict_tool_names, all_schema, check_constraint, constraint_of, checked,
  resolve_tool_policy,
}

-- For a specification as its constructor takes them (a guarantee other than NONE or unknown is asked
-- for with FAIL_CLOSED, and NONE without): the plan is unsupported exactly if what it plans does not
-- satisfy what was requested.
pub structured_iff :
    (capabilities : GenerationCapabilitySnapshot) (spec : StructuredOutputSpec) (text_only : Bool)
    (trigger : Option String)
    → is_unknown spec.requested_guarantee ≡ false
    → is_none spec.requested_guarantee ≡ not (is_fail_closed spec.fallback_policy)
    → let plan = resolve_structured_output capabilities spec text_only trigger in
      is_some plan.unsupported_reason
      ≡ not (guarantee_satisfies plan.planned_guarantee spec.requested_guarantee)
unfolding resolve_structured_output guarantee_satisfies
structured_iff capabilities spec text_only trigger h k = ground arith

-- The constraint has a branch that guarantees this tool's schema.
abbrev pub guarantees_tool : String → Option ToolGenerationConstraint → Bool
guarantees_tool name none = false
guarantees_tool name (some c) =
    guarantee_satisfies (branch_guarantee name c.branch_guarantees) schema

all_schema_lem :
    (json : Json) (name : String) (names : List String) (c : ToolGenerationConstraint)
    → contains name names ≡ true
    → all_schema json names c ≡ true
    → guarantees_tool name (some c) ≡ true
all_schema_lem json name [] c h k = ground arith
all_schema_lem json name (n ∷ ns) c h k =
    ground (arith, all_schema_lem json name ns c, eq_iff n name)

module _ (json : Json) where
  none_exposed :
      (choice name : String) (ts : List (FunctionTool json))
      → contains name (exposed_strict_tool_names json no_tools choice ts) ≡ false
  unfolding exposed_strict_tool_names
  none_exposed choice name [] = refl
  none_exposed choice name (t ∷ ts) = none_exposed choice name ts

  named_exposed :
      (choice name : String) (ts : List (FunctionTool json))
      → contains name (exposed_strict_tool_names json named choice ts) ≡ true
      → any_named_strict json choice ts ≡ true
  unfolding exposed_strict_tool_names
  named_exposed choice name [] h = ground arith
  named_exposed choice name (t ∷ ts) h = ground (arith, named_exposed choice name ts)

  auto_exposed :
      (choice name : String) (ts : List (FunctionTool json))
      → contains name (exposed_strict_tool_names json auto choice ts) ≡ true
      → any_strict json ts ≡ true
  unfolding exposed_strict_tool_names
  auto_exposed choice name [] h = ground arith
  auto_exposed choice name (t ∷ ts) h = ground (arith, auto_exposed choice name ts)

  required_exposed :
      (choice name : String) (ts : List (FunctionTool json))
      → contains name (exposed_strict_tool_names json required choice ts) ≡ true
      → any_strict json ts ≡ true
  unfolding exposed_strict_tool_names
  required_exposed choice name [] h = ground arith
  required_exposed choice name (t ∷ ts) h = ground (arith, required_exposed choice name ts)

  -- A strict tool that the mode exposes makes the policy strict.
  by_mode :
      (mode : ToolChoiceMode) (choice name : String) (ts : List (FunctionTool json))
      → contains name (exposed_strict_tool_names json mode choice ts) ≡ true
      → strict_in json mode choice ts ≡ true
  by_mode no_tools choice name ts h = ground (arith, none_exposed choice name ts)
  by_mode named choice name ts h = named_exposed choice name ts h
  by_mode auto choice name ts h = auto_exposed choice name ts h
  by_mode required choice name ts h = required_exposed choice name ts h

  module _ (factory : Option (ToolPolicy json → Option (Option ToolGenerationConstraint)))
      (capabilities : GenerationCapabilitySnapshot) where
    -- What a plan gives a strict tool.
    abbrev pub IsStrict : String → ToolConstraintPlan → Type 0
    IsStrict name plan =
        (guarantees_tool name plan.constraint ≡ true)
        × (plan.requested_guarantee ≡ schema)
        × (plan.fallback_policy ≡ fail_closed)

    abbrev IsStrictPlan : String → ToolPlan → Type 0
    IsStrictPlan name (planned plan) = IsStrict name plan
    IsStrictPlan name (unsupported message) = Unit
    IsStrictPlan name factory_raised = Unit

    check-IsStrictPlan :
        (policy : ToolPolicy json) (name : String) (o : Option ToolGenerationConstraint)
        → contains name (exposed_strict_tool_names json policy.mode policy.choice_name policy.tools)
          ≡ true
        → IsStrictPlan name (check_constraint json factory capabilities policy o)
    unfolding check_constraint
    check-IsStrictPlan policy name none h =
        if_elim (IsStrictPlan name) (has_exposed_strict_tool json policy) (λ e. tt)
          (λ e.
            absurd
              (false≢true (sym e ∙ by_mode policy.mode policy.choice_name name policy.tools h)))
    check-IsStrictPlan policy name (some c) h =
        let s = by_mode policy.mode policy.choice_name name policy.tools h in
        let names = exposed_strict_tool_names json policy.mode policy.choice_name policy.tools in
        if_elim (IsStrictPlan name)
          (has_exposed_strict_tool json policy && not (all_schema json names c)) (λ e. tt)
          (λ e. (
            all_schema_lem json name names c h (ground (arith, s, e)),
            ap (λ b. if b then schema else none_) s,
            ap (λ b. if b then fail_closed else allow_validation_only) s,
          ))

    checked_plan :
        (policy : ToolPolicy json) (name : String) (o : Option (Option ToolGenerationConstraint))
        → contains name (exposed_strict_tool_names json policy.mode policy.choice_name policy.tools)
          ≡ true
        → IsStrictPlan name (checked json factory capabilities policy o)
    checked_plan policy name none h = tt
    checked_plan policy name (some o) h = check-IsStrictPlan policy name o h

    -- A policy's plan, when there is one: each strict tool that the policy's mode exposes has a branch of
    -- the constraint that guarantees its schema, and the plan asks for that guarantee and fails closed.
    pub resolve_tool_policy-IsStrict :
        (policy : ToolPolicy json) (name : String) (plan : ToolConstraintPlan)
        → contains name (exposed_strict_tool_names json policy.mode policy.choice_name policy.tools)
          ≡ true
        → resolve_tool_policy json factory capabilities policy ≡ planned plan
        → IsStrict name plan
    unfolding resolve_tool_policy
    resolve_tool_policy-IsStrict policy name plan h e = subst (IsStrictPlan name) e (
        if_elim (IsStrictPlan name)
          (has_exposed_strict_tool json policy && not capabilities.strict_tool_constraints)
          (λ x. tt)
          (λ x.
            checked_plan policy name (constraint_of json factory capabilities factory policy) h))
