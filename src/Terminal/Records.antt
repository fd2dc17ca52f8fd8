-- ===== src/Terminal/Records.antt =====
-- serving/terminal.py: what a sequence of recording methods leaves in the evidence, told from the
-- calls alone.
use ex_qserve.Base.{
  Bool, true, false, ◌||◌, Option, none, some, List, [], ◌∷◌, is_some, ◌≡◌, refl, sym, ap, ◌∙◌,
  arith, Option-cases, inl, inr,
}
use ex_qserve.Terminal.{
  RuntimeStopReason, loop, other, TerminalDisposition, success, TerminalPrimaryOwner,
  lifecycle_termination, runtime_ownership, LifecycleOrigin, TerminalEvidence, origin_of, Recorded,
  controlled_reason, finished, failed_runtime, cancelled_runtime, parser_issue, failed_parser,
  failed_constraint, failed_semantic, failed_unknown, record_one, record_all,
}

abbrev pub or_first {ℓ} : {A : Type ℓ} → Option A → Option A → Option A
or_first none b = b
or_first (some a) b = some a

pub or_first_assoc {ℓ} :
    {A : Type ℓ} (a b c : Option A) → or_first (or_first a b) c ≡ or_first a (or_first b c)
or_first_assoc none b c = refl
or_first_assoc (some a) b c = refl

pub or_first-none {ℓ} : {A : Type ℓ} (a : Option A) → or_first a none ≡ a
or_first-none none = refl
or_first-none (some a) = refl

pub or_assoc : (a b c : Bool) → ((a || b) || c) ≡ (a || (b || c))
or_assoc true b c = refl
or_assoc false b c = refl

-- The lifecycle origin that a call names.
abbrev pub origin_in : Recorded → Option LifecycleOrigin
origin_in (controlled_reason (some reason)) = origin_of reason
origin_in _ = none

abbrev pub lifecycle_claim : Option LifecycleOrigin → Option TerminalPrimaryOwner
lifecycle_claim none = none
lifecycle_claim (some origin) = some lifecycle_termination

-- The owner that a call claims for the request's end.
abbrev pub claim_in : Recorded → Option TerminalPrimaryOwner
claim_in (controlled_reason (some reason)) = lifecycle_claim (origin_of reason)
claim_in (failed_runtime error) = some runtime_ownership
claim_in cancelled_runtime = some runtime_ownership
claim_in _ = none

abbrev pub is_failure : Recorded → Bool
is_failure (failed_parser error) = true
is_failure (failed_constraint error) = true
is_failure (failed_semantic error) = true
is_failure (failed_unknown error) = true
is_failure _ = false

abbrev pub stop_in : Recorded → Option RuntimeStopReason
stop_in (finished reason constraint) = some reason
stop_in _ = none

abbrev pub first_claim : List Recorded → Option TerminalPrimaryOwner
first_claim [] = none
first_claim (r ∷ rs) = or_first (claim_in r) (first_claim rs)

abbrev pub first_origin : List Recorded → Option LifecycleOrigin
first_origin [] = none
first_origin (r ∷ rs) = or_first (origin_in r) (first_origin rs)

abbrev pub any_failure : List Recorded → Bool
any_failure [] = false
any_failure (r ∷ rs) = is_failure r || any_failure rs

abbrev pub last_stop : List Recorded → Option RuntimeStopReason
last_stop [] = none
last_stop (r ∷ rs) = or_first (last_stop rs) (stop_in r)

-- A stop that ends a generation as it should end.
abbrev pub is_normal : Option RuntimeStopReason → Bool
is_normal none = false
is_normal (some loop) = false
is_normal (some other) = false
is_normal (some _) = true

abbrev pub is_success : TerminalDisposition → Bool
is_success success = true
is_success _ = false

abbrev pub has_failure : TerminalEvidence → Bool
has_failure e =
    is_some e.constraint_failure
    || is_some e.parser_integrity_failure
    || is_some e.semantic_failure
    || is_some e.unknown_failure

record_one-owner :
    (r : Recorded) (e : TerminalEvidence)
    → (record_one r e).causal_owner ≡ or_first e.causal_owner (claim_in r)
unfolding record_one
record_one-owner (controlled_reason none) e = ground arith
record_one-owner (controlled_reason (some reason)) e = ground arith
record_one-owner (finished reason constraint) e = ground arith
record_one-owner (failed_runtime error) e = ground arith
record_one-owner cancelled_runtime e = ground arith
record_one-owner (parser_issue issue) e = ground arith
record_one-owner (failed_parser error) e = ground arith
record_one-owner (failed_constraint error) e = ground arith
record_one-owner (failed_semantic error) e = ground arith
record_one-owner (failed_unknown error) e = ground arith

record_one-origin :
    (r : Recorded) (e : TerminalEvidence)
    → (record_one r e).lifecycle_origin ≡ or_first e.lifecycle_origin (origin_in r)
unfolding record_one
record_one-origin (controlled_reason none) e = ground arith
record_one-origin (controlled_reason (some reason)) e = ground arith
record_one-origin (finished reason constraint) e = ground arith
record_one-origin (failed_runtime error) e = ground arith
record_one-origin cancelled_runtime e = ground arith
record_one-origin (parser_issue issue) e = ground arith
record_one-origin (failed_parser error) e = ground arith
record_one-origin (failed_constraint error) e = ground arith
record_one-origin (failed_semantic error) e = ground arith
record_one-origin (failed_unknown error) e = ground arith

-- The rest of the record that `resolve` reads.
record_one-rest :
    (r : Recorded) (e : TerminalEvidence)
    → ((record_one r e).runtime_stop_reason ≡ or_first (stop_in r) e.runtime_stop_reason)
      × (has_failure (record_one r e) ≡ (has_failure e || is_failure r))
      × ((record_one r e).decision ≡ e.decision)
unfolding record_one
record_one-rest (controlled_reason none) e = ground arith
record_one-rest (controlled_reason (some reason)) e = ground arith
record_one-rest (finished reason constraint) e = ground arith
record_one-rest (failed_runtime error) e = ground arith
record_one-rest cancelled_runtime e = ground arith
record_one-rest (parser_issue issue) e = ground arith
record_one-rest (failed_parser error) e = ground arith
record_one-rest (failed_constraint error) e = ground arith
record_one-rest (failed_semantic error) e = ground arith
record_one-rest (failed_unknown error) e = ground arith

pub record_all-owner :
    (rs : List Recorded) (e : TerminalEvidence)
    → (record_all rs e).causal_owner ≡ or_first e.causal_owner (first_claim rs)
unfolding record_all
record_all-owner [] e = ground arith
record_all-owner (r ∷ rs) e =
    record_all-owner rs (record_one r e)
    ∙ ap (λ o. or_first o (first_claim rs)) (record_one-owner r e)
    ∙ or_first_assoc e.causal_owner (claim_in r) (first_claim rs)

pub record_all-origin :
    (rs : List Recorded) (e : TerminalEvidence)
    → (record_all rs e).lifecycle_origin ≡ or_first e.lifecycle_origin (first_origin rs)
unfolding record_all
record_all-origin [] e = ground arith
record_all-origin (r ∷ rs) e =
    record_all-origin rs (record_one r e)
    ∙ ap (λ o. or_first o (first_origin rs)) (record_one-origin r e)
    ∙ or_first_assoc e.lifecycle_origin (origin_in r) (first_origin rs)

pub record_all-stop :
    (rs : List Recorded) (e : TerminalEvidence)
    → (record_all rs e).runtime_stop_reason ≡ or_first (last_stop rs) e.runtime_stop_reason
unfolding record_all
record_all-stop [] e = refl
record_all-stop (r ∷ rs) e =
    record_all-stop rs (record_one r e)
    ∙ ap (λ o. or_first (last_stop rs) o) (record_one-rest r e).0
    ∙ sym (or_first_assoc (last_stop rs) (stop_in r) e.runtime_stop_reason)

pub record_all-failure :
    (rs : List Recorded) (e : TerminalEvidence)
    → has_failure (record_all rs e) ≡ (has_failure e || any_failure rs)
unfolding record_all
record_all-failure [] e = ground arith
record_all-failure (r ∷ rs) e =
    record_all-failure rs (record_one r e)
    ∙ ap (λ b. b || any_failure rs) (record_one-rest r e).1
    ∙ or_assoc (has_failure e) (is_failure r) (any_failure rs)

pub record_all-decision :
    (rs : List Recorded) (e : TerminalEvidence) → (record_all rs e).decision ≡ e.decision
unfolding record_all
record_all-decision [] e = refl
record_all-decision (r ∷ rs) e = record_all-decision rs (record_one r e) ∙ (record_one-rest r e).2

-- What is claimed is one of the two causal owners.
abbrev pub is_causal : Option TerminalPrimaryOwner → Bool
is_causal none = true
is_causal (some lifecycle_termination) = true
is_causal (some runtime_ownership) = true
is_causal (some _) = false

claim_in-is_causal : (r : Recorded) → is_causal (claim_in r) ≡ true
claim_in-is_causal (controlled_reason none) = refl
claim_in-is_causal (controlled_reason (some reason)) = ground arith
claim_in-is_causal (finished reason constraint) = refl
claim_in-is_causal (failed_runtime error) = refl
claim_in-is_causal cancelled_runtime = refl
claim_in-is_causal (parser_issue issue) = refl
claim_in-is_causal (failed_parser error) = refl
claim_in-is_causal (failed_constraint error) = refl
claim_in-is_causal (failed_semantic error) = refl
claim_in-is_causal (failed_unknown error) = refl

pub first_claim-is_causal : (rs : List Recorded) → is_causal (first_claim rs) ≡ true
first_claim-is_causal [] = refl
first_claim-is_causal (r ∷ rs) = elim (Option-cases (claim_in r)) [
  | inl e ↦ ap is_causal (ap (λ o. or_first o (first_claim rs)) e) ∙ first_claim-is_causal rs
  | inr (o, e) ↦
      ap is_causal (ap (λ p. or_first p (first_claim rs)) e)
      ∙ sym (ap is_causal e)
      ∙ claim_in-is_causal r
]
