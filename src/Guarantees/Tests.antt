-- ===== src/Guarantees/Tests.antt =====
-- Tests of the guarantees, and the theorems at concrete requests.
use ex_qserve.Base.{◌≡◌, refl, true, false, not, Option, none, some, [], ◌∷◌, is_some}
use ex_qserve.Core.{schema}
use ex_qserve.Agent.{ToolPolicy}
use ex_qserve.Agent.Tests.{json, policy}
use ex_qserve.Guarantees.{
  GenerationCapabilitySnapshot, fail_closed, ToolGenerationConstraint, ToolConstraintPlan, planned,
  StructuredOutputSpec, guarantee_satisfies, resolve_structured_output, resolve_tool_policy,
}
use ex_qserve.Guarantees.Soundness.{structured_iff, IsStrict, resolve_tool_policy-IsStrict}

program : Unit {0}
unfolding resolve_structured_output resolve_tool_policy guarantee_satisfies
program = tt

abbrev all_capable : GenerationCapabilitySnapshot
all_capable = record {
  tool_constraints = true;
  strict_tool_constraints = true;
  structured_output_constraints = true;
}

abbrev spec : StructuredOutputSpec
spec = record { canonical_json = "{}"; requested_guarantee = schema; fallback_policy = fail_closed }

-- The prompt has no place for the constraint.
structured_iff_example :
    let plan = resolve_structured_output all_capable spec false none in
    is_some plan.unsupported_reason ≡ not (guarantee_satisfies plan.planned_guarantee schema)
structured_iff_example = structured_iff all_capable spec false none refl refl

abbrev constraint : ToolGenerationConstraint
constraint = record {
  trigger = "<tool>";
  lark_grammar = "start: call";
  branch_guarantees = some (("look", schema) ∷ []);
}

abbrev factory : Option (ToolPolicy json → Option (Option ToolGenerationConstraint))
factory = some (λ p. some (some constraint))

abbrev strict_plan : ToolConstraintPlan
strict_plan = record {
  requested_guarantee = schema;
  runtime_guarantee = schema;
  fallback_policy = fail_closed;
  constraint = some constraint;
}

is_planned : resolve_tool_policy json factory all_capable policy ≡ planned strict_plan
unfolding program
is_planned = refl

resolve_tool_policy-IsStrict_example : IsStrict json factory all_capable "look" strict_plan
unfolding program
resolve_tool_policy-IsStrict_example =
    resolve_tool_policy-IsStrict json factory all_capable policy "look" strict_plan refl is_planned
