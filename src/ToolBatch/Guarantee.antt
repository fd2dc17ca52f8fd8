-- ===== src/ToolBatch/Guarantee.antt =====
-- serving/tool_batch.py: whose fault an invalid completed call is, under each generation guarantee.
use ex_qserve.Base.{Bool, true, false, ◌==◌, ◌&&◌, ◌||◌, not, ◌≡◌, arith, is_empty}
use ex_qserve.Agent.{ValidationCode}
use ex_qserve.Core.{GenerationGuarantee, none_, format, schema, unknown}
use ex_qserve.ToolBatch.{BatchFailure, any_code, is_model_output_code, is_format_code}

-- Some code is not a model-output code.
abbrev is_foreign : ValidationCode → Bool
is_foreign code = not (is_model_output_code code)

-- The failure is an invalid call with issues, each of them about the model's output.
unfoldable pub is_output_failure : BatchFailure → Bool
is_output_failure f =
    (f.code == "tool_call_invalid")
    && not (is_empty f.validation_issues)
    && not (any_code is_foreign f.validation_issues)

unfoldable pub is_model_tool_output_invalid : BatchFailure → GenerationGuarantee → Bool
unfolding is_output_failure
is_model_tool_output_invalid f schema = false
is_model_tool_output_invalid f unknown = false
is_model_tool_output_invalid f format =
    is_output_failure f && not (any_code is_format_code f.validation_issues)
is_model_tool_output_invalid f none_ = is_output_failure f

unfoldable pub violates_tool_constraint_guarantee : BatchFailure → GenerationGuarantee → Bool
unfolding is_output_failure
violates_tool_constraint_guarantee f schema = is_output_failure f
violates_tool_constraint_guarantee f format =
    is_output_failure f && any_code is_format_code f.validation_issues
violates_tool_constraint_guarantee f unknown = false
violates_tool_constraint_guarantee f none_ = false

abbrev pub is_known : GenerationGuarantee → Bool
is_known unknown = false
is_known _ = true

-- A failure is never both. Under every guarantee but `unknown` a failure of the model's output is
-- one of the two, and under `unknown`, and for any other failure, it is neither.
pub guarantee_blame :
    (f : BatchFailure) (g : GenerationGuarantee)
    → ((is_model_tool_output_invalid f g && violates_tool_constraint_guarantee f g) ≡ false)
      × ((is_model_tool_output_invalid f g || violates_tool_constraint_guarantee f g)
          ≡ (is_output_failure f && is_known g))
unfolding is_model_tool_output_invalid violates_tool_constraint_guarantee
guarantee_blame f g = ground arith
