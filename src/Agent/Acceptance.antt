-- ===== src/Agent/Acceptance.antt =====
-- `validate_tool_calls`: the batches that pass, and the equivalence with the policy.
use ex_qserve.Base.{eq_refl}
use ex_qserve.Base.{
  ℕ, suc, ◌≤◌, String, true, false, List, [], ◌∷◌, ◌≡◌, ◌≢◌, ◌↔◌, contains, length, arith, eq_iff,
  refl, inl, inr, Bool-cases,
}
use ex_qserve.Core.{ToolCallItem}
use ex_qserve.Agent.{
  Json, ToolPolicy, ToolChoiceMode, no_tools, auto, required, named, id_issues, order_issues,
  judge_call, judge_calls, count_issues, is_forbidden, is_required, validate_tool_calls,
}
use ex_qserve.Agent.Validity.{
  append_nil_left, append_nil_right, ids, IsDistinct, IsAccepted, AreAccepted, MeetsPolicy,
  AreFresh, judge_tool_accepted, judge_calls_nil,
}

forbidden_nil :
    (mode : ToolChoiceMode) (calls : List ToolCallItem)
    → is_forbidden mode calls ≡ false
    → mode ≡ no_tools
    → calls ≡ []
forbidden_nil no_tools [] e m = refl
forbidden_nil no_tools (call ∷ calls) e m = cc
forbidden_nil auto calls e m = absurd (cc)
forbidden_nil required calls e m = absurd (cc)
forbidden_nil named calls e m = absurd (cc)

forbidden_false :
    (mode : ToolChoiceMode) (calls : List ToolCallItem)
    → (mode ≡ no_tools → calls ≡ [])
    → is_forbidden mode calls ≡ false
forbidden_false no_tools calls h = rw (h refl)
forbidden_false auto calls h = refl
forbidden_false required calls h = refl
forbidden_false named calls h = refl

module _ (json : Json) (policy : ToolPolicy json) where
  judge_call_accepted :
      (seen : List String) (position : ℕ) (call : ToolCallItem)
      → contains call.call_id seen ≡ false
      → call.index ≡ position
      → IsAccepted json policy call
      → (judge_call json policy seen position call).0 ≡ []
  unfolding judge_call id_issues order_issues
  judge_call_accepted seen position call new order a =
      rw (new, judge_tool_accepted json policy position call a) (ground (arith, order))

  judge_calls_accepted :
      (seen : List String) (position : ℕ) (calls : List ToolCallItem)
      → AreFresh json policy seen calls
      → IsDistinct (ids calls)
      → AreAccepted json policy position calls
      → (judge_calls json policy seen position calls).0 ≡ []
  unfolding judge_calls
  judge_calls_accepted seen position [] fresh distinct accepted = refl
  judge_calls_accepted seen position (call ∷ calls) fresh distinct accepted = rw (
    judge_call_accepted seen position call
        (fresh call.call_id (ground (arith, eq_refl call.call_id))) accepted.0 accepted.1,
    judge_calls_accepted (call.call_id ∷ seen) (suc position) calls
        (λ k h. ground (arith, fresh k, distinct.0, eq_iff call.call_id k)) distinct.1 accepted.2,
  )

  count_issues_nil :
      (calls : List ToolCallItem)
      → count_issues json policy calls ≡ []
      → (is_required policy.mode ≡ true → calls ≢ [])
        × (policy.allow_parallel ≡ false → length calls ≤ 1)
  unfolding count_issues
  count_issues_nil [] e = (λ r h. ground arith, λ p. omega arith)
  count_issues_nil (call ∷ calls) e = (λ r h. cc, λ p. ground arith)

  count_issues_accepted :
      (calls : List ToolCallItem)
      → (is_required policy.mode ≡ true → calls ≢ [])
      → (policy.allow_parallel ≡ false → length calls ≤ 1)
      → count_issues json policy calls ≡ []
  unfolding count_issues
  count_issues_accepted [] r p = elim (Bool-cases (is_required policy.mode)) [
    | inl e ↦ absurd (r e refl)
    | inr e ↦ rw e (ground arith)
  ]
  count_issues_accepted (call ∷ calls) r p = ground arith

  valid-MeetsPolicy :
      (calls : List ToolCallItem)
      → (validate_tool_calls json calls policy).0 ≡ []
      → MeetsPolicy json policy calls
  unfolding validate_tool_calls
  valid-MeetsPolicy calls = elim (Bool-cases (is_forbidden policy.mode calls)) [
    | inl e ↦ rw e (λ h. absurd (cc))
    | inr e ↦ rw e (λ h.
        let (present, few) = count_issues_nil calls (append_nil_left _ _ h) in
        let (fresh, distinct, accepted) =
          judge_calls_nil json policy [] 0 calls
            (append_nil_right (count_issues json policy calls) _ h) in
        record {
          allowed = forbidden_nil policy.mode calls e;
          present = present;
          few = few;
          distinct = distinct;
          accepted = accepted;
        })
  ]

  MeetsPolicy-valid :
      (calls : List ToolCallItem)
      → MeetsPolicy json policy calls
      → (validate_tool_calls json calls policy).0 ≡ []
  unfolding validate_tool_calls
  MeetsPolicy-valid calls m = rw (
    forbidden_false policy.mode calls m.allowed,
    count_issues_accepted calls m.present m.few,
    judge_calls_accepted [] 0 calls (λ k h. refl) m.distinct m.accepted,
  )

  -- A batch of tool calls is valid exactly when it meets the policy: no call where calls are
  -- forbidden, one at least where one is required, one at most where parallel calls are not
  -- allowed, distinct ids, indices in order, and each call of a declared and permitted tool with an
  -- argument object that meets the tool's schema.
  pub validate_tool_calls_iff :
      (calls : List ToolCallItem)
      → ((validate_tool_calls json calls policy).0 ≡ []) ↔ MeetsPolicy json policy calls
  validate_tool_calls_iff calls = (valid-MeetsPolicy calls, MeetsPolicy-valid calls)
