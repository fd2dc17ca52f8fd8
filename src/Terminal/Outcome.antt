-- ===== src/Terminal/Outcome.antt =====
-- serving/terminal.py: how the decision of `resolve` follows from what was recorded, and in which
-- order.
use ex_qserve.Base.{true, not, ◌&&◌, Option, none, some, List, is_some, ◌≡◌, refl, ap, ◌∙◌, arith}
use ex_qserve.Core.{CanonicalError, CompletionReason}
use ex_qserve.Terminal.{
  RuntimeStopReason, eos, stop_string, length_stop, filter_stop, loop, other, TerminalDisposition,
  failure, cancellation, TerminalPrimaryOwner, request_rejection, lifecycle_termination,
  runtime_ownership, constraint_integrity, parser_integrity, semantic_contract,
  normal_runtime_terminal, unknown_internal, LifecycleOrigin, deadline, TerminalEvidence,
  new_evidence, Recorded, record_all,
}
use ex_qserve.Terminal.Decision.{resolve, resolve_lifecycle, resolve_owner, resolve_stop}
use ex_qserve.Terminal.Records.{
  or_first-none, first_claim, first_origin, any_failure, last_stop, is_normal, is_success,
  has_failure, record_all-owner, record_all-origin, record_all-stop, record_all-failure,
  record_all-decision, is_causal, first_claim-is_causal,
}

module _ (reason : Option CompletionReason)
    (transform : Option (CanonicalError → CanonicalError)) where
  resolve_stop-success :
      (e : TerminalEvidence) (s : Option RuntimeStopReason)
      → e.runtime_stop_reason ≡ s
      → is_success (resolve_stop reason e s).disposition ≡ (not (has_failure e) && is_normal s)
  unfolding resolve_stop
  resolve_stop-success e none h = ground arith
  resolve_stop-success e (some loop) h = ground arith
  resolve_stop-success e (some other) h = ground arith
  resolve_stop-success e (some eos) h = ground arith
  resolve_stop-success e (some stop_string) h = ground arith
  resolve_stop-success e (some length_stop) h = ground arith
  resolve_stop-success e (some filter_stop) h = ground arith

  resolve_owner-success :
      (e : TerminalEvidence) (o : Option TerminalPrimaryOwner)
      → is_causal o ≡ true
      → is_success (resolve_owner reason transform e o).disposition
        ≡ (not (is_some o) && (not (has_failure e) && is_normal e.runtime_stop_reason))
  unfolding resolve_owner
  resolve_owner-success e none h = resolve_stop-success e e.runtime_stop_reason refl
  resolve_owner-success e (some lifecycle_termination) h = ground arith
  resolve_owner-success e (some runtime_ownership) h = ground arith
  resolve_owner-success e (some request_rejection) h = cc
  resolve_owner-success e (some constraint_integrity) h = cc
  resolve_owner-success e (some parser_integrity) h = cc
  resolve_owner-success e (some semantic_contract) h = cc
  resolve_owner-success e (some normal_runtime_terminal) h = cc
  resolve_owner-success e (some unknown_internal) h = cc

  pub resolve_uncommitted :
      (e : TerminalEvidence)
      → e.decision ≡ none
      → resolve reason transform e ≡ resolve_owner reason transform e e.causal_owner
  unfolding resolve
  resolve_uncommitted e h = rw h refl

  -- A request ends in success exactly if nothing that was recorded claims its end, no failure of
  -- the parser, the constraint, the semantic contract or of unknown origin was recorded, and the
  -- last stop of the runtime is neither missing, nor a loop, nor of another kind.
  pub success_iff :
      (rs : List Recorded)
      → is_success (resolve reason transform (record_all rs new_evidence)).disposition
        ≡ (not (is_some (first_claim rs)) && (not (any_failure rs) && is_normal (last_stop rs)))
  success_iff rs =
      let e = record_all rs new_evidence in
      let owned = record_all-owner rs new_evidence in
      ap (λ d. is_success d.disposition)
        (resolve_uncommitted e (record_all-decision rs new_evidence))
      ∙ resolve_owner-success e e.causal_owner (ap is_causal owned ∙ first_claim-is_causal rs)
      ∙ ap (λ o. not (is_some o) && (not (has_failure e) && is_normal e.runtime_stop_reason)) owned
      ∙ ap (λ b. not (is_some (first_claim rs)) && (not b && is_normal e.runtime_stop_reason))
          (record_all-failure rs new_evidence)
      ∙ ap (λ s. not (is_some (first_claim rs)) && (not (any_failure rs) && is_normal s))
          (record_all-stop rs new_evidence ∙ or_first-none (last_stop rs))

  abbrev pub lifecycle_disposition : Option LifecycleOrigin → TerminalDisposition
  lifecycle_disposition (some deadline) = failure
  lifecycle_disposition _ = cancellation

  resolve_lifecycle-owner :
      (e : TerminalEvidence) (o : Option LifecycleOrigin)
      → ((resolve_lifecycle transform e o).primary_owner ≡ lifecycle_termination)
        × ((resolve_lifecycle transform e o).disposition ≡ lifecycle_disposition o)
  unfolding resolve_lifecycle
  resolve_lifecycle-owner e o = ground arith

  -- When the first claim of the request's end is its lifecycle's, the lifecycle owns the decision
  -- whatever else is recorded, before or after: a deadline that is the first origin recorded makes
  -- it a failure, and any other origin a cancellation.
  pub lifecycle_first :
      (rs : List Recorded)
      → first_claim rs ≡ some lifecycle_termination
      → ((resolve reason transform (record_all rs new_evidence)).primary_owner
          ≡ lifecycle_termination)
        × ((resolve reason transform (record_all rs new_evidence)).disposition
            ≡ lifecycle_disposition (first_origin rs))
  unfolding resolve_owner
  lifecycle_first rs h =
      let e = record_all rs new_evidence in
      let decided =
        resolve_uncommitted e (record_all-decision rs new_evidence)
        ∙ ap (resolve_owner reason transform e) (record_all-owner rs new_evidence ∙ h) in
      let (owner, disposition) = resolve_lifecycle-owner e e.lifecycle_origin in
      (
        ap (λ d. d.primary_owner) decided ∙ owner,
        ap (λ d. d.disposition) decided
            ∙ disposition
            ∙ ap lifecycle_disposition (record_all-origin rs new_evidence),
      )
