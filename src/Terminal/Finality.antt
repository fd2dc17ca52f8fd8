-- ===== src/Terminal/Finality.antt =====
-- serving/terminal.py: the decision of `resolve` is one that `TerminalDecision` accepts, and once it
-- is committed nothing changes it.
use ex_qserve.Base.{
  Bool, true, false, not, ◌&&◌, Option, none, some, List, is_some, ◌≡◌, refl, ap, ◌∙◌, arith,
}
use ex_qserve.Core.{CanonicalError, CompletionReason}
use ex_qserve.Terminal.{
  TerminalDisposition, success, failure, cancellation, TerminalDecision, TerminalEvidence, Recorded,
  TerminalPrimaryOwner, RuntimeStopReason, record_all, commit_over, commit_decision, agree,
}
use ex_qserve.Terminal.Decision.{
  resolve, resolve_over, resolve_owner, resolve_stop, resolve_failures,
}
use ex_qserve.Terminal.Records.{record_all-decision}
use ex_qserve.Terminal.Outcome.{resolve_uncommitted}

abbrev pub well_formed :
    TerminalDisposition → Option CanonicalError → Option CompletionReason → Bool
well_formed success error reason = is_some reason && not (is_some error)
well_formed failure error reason = is_some error && not (is_some reason)
well_formed cancellation error reason = not (is_some reason)

-- `TerminalDecision.__post_init__` raises no error.
abbrev pub is_well_formed : TerminalDecision → Bool
is_well_formed d = well_formed d.disposition d.canonical_error d.completion_reason

resolve_failures-well_formed :
    (reason : Option CompletionReason) (e : TerminalEvidence) (c p s u : Option CanonicalError)
    → is_well_formed (resolve_failures reason e c p s u) ≡ true
unfolding resolve_failures
resolve_failures-well_formed reason e c p s u = ground arith

resolve_stop-well_formed :
    (reason : Option CompletionReason) (e : TerminalEvidence) (s : Option RuntimeStopReason)
    → is_well_formed (resolve_stop reason e s) ≡ true
unfolding resolve_stop
resolve_stop-well_formed reason e s = ground (
  arith,
  resolve_failures-well_formed reason e e.constraint_failure e.parser_integrity_failure
      e.semantic_failure e.unknown_failure,
)

module _ (reason : Option CompletionReason)
    (transform : Option (CanonicalError → CanonicalError)) where
  resolve_owner-well_formed :
      (e : TerminalEvidence) (o : Option TerminalPrimaryOwner)
      → is_well_formed (resolve_owner reason transform e o) ≡ true
  unfolding resolve_owner
  resolve_owner-well_formed e o =
      ground (arith, resolve_stop-well_formed reason e e.runtime_stop_reason)

  -- From any evidence with no decision yet, the decision is one that the checks of
  -- `TerminalDecision` accept: a success has a completion reason and no error, a failure an error
  -- and no completion reason, and a cancellation no completion reason.
  pub resolve_well_formed :
      (e : TerminalEvidence)
      → e.decision ≡ none
      → is_well_formed (resolve reason transform e) ≡ true
  resolve_well_formed e h =
      ap is_well_formed (resolve_uncommitted reason transform e h)
      ∙ resolve_owner-well_formed e e.causal_owner

  agree-some : (b : Bool) (old d : TerminalDecision) → agree b old ≡ some d → some old ≡ some d
  agree-some true old d h = h
  agree-some false old d h = cc

  commit_over-decision :
      (equal : TerminalDecision → TerminalDecision → Bool) (new d : TerminalDecision)
      (e : TerminalEvidence) (o : Option TerminalDecision)
      → e.decision ≡ o
      → (commit_over equal new e o).1 ≡ some d
      → (commit_over equal new e o).0.decision ≡ some d
  unfolding commit_over
  commit_over-decision equal new d e none h g = g
  commit_over-decision equal new d e (some old) h g = h ∙ agree-some (equal old new) old d g

  -- Once `commit_decision` returns a decision, `resolve` gives that decision whatever is recorded
  -- afterwards, with any reason and transform.
  pub commit_final :
      (equal : TerminalDecision → TerminalDecision → Bool) (new d : TerminalDecision)
      (e : TerminalEvidence) (rs : List Recorded)
      → (commit_decision equal new e).1 ≡ some d
      → resolve reason transform (record_all rs (commit_decision equal new e).0) ≡ d
  unfolding commit_decision resolve
  commit_final equal new d e rs h =
      let decided =
        record_all-decision rs (commit_over equal new e e.decision).0
        ∙ commit_over-decision equal new d e e.decision refl h in
      ap (resolve_over reason transform (record_all rs (commit_over equal new e e.decision).0))
        decided
