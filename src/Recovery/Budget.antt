-- ===== src/Recovery/Budget.antt =====
-- The budget of extra attempts: how far a session has gone on from another one.
use ex_qserve.Base.{
  ◌∙◌, sym, ◌||◌, ℕ, ◌+◌, String, ◌≡◌, refl, Bool, true, false, Option, some, List, [], ◌∷◌, ◌++◌,
  if◌then◌else◌, if_elim, arith, ap,
}
use ex_qserve.Core.{
  CanonicalError, GenerationEvent, generation_completed, generation_cancelled, generation_failed,
}
use ex_qserve.Recovery.Session.{
  RecoveringSession, RecoveryAttemptRecord, attempt_record, append_record, release_once, cancel,
  cancel_if,
}

-- The records of attempts that were given up for another one.
abbrev pub discards : List RecoveryAttemptRecord → ℕ
discards [] = 0
discards (r ∷ rs) = (if r.discarded then 1 else 0) + discards rs

pub discards-append :
    (rs qs : List RecoveryAttemptRecord) → discards (rs ++ qs) ≡ discards rs + discards qs
discards-append [] qs = omega arith
discards-append (r ∷ rs) qs = omega (arith, discards-append rs qs)

abbrev pub once : Bool → ℕ
once true = 1
once false = 0

-- The lease's release was called once if the session counts as released, and never before that.
abbrev pub IsOnce : RecoveringSession → Type 0
IsOnce s = s.lease_releases ≡ once s.released

-- A session that has gone on from another one by `n` attempts, with `d` more of them discarded.
pub record IsFurther (n d : ℕ) (s t : RecoveringSession) : Type 0 where
  pub ordinal : t.attempt_ordinal ≡ s.attempt_ordinal + n
  pub started : t.attempts_started ≡ s.attempts_started + n
  pub recoveries : t.recovery_attempts ≡ s.recovery_attempts + n
  pub discarded : discards t.attempt_records ≡ discards s.attempt_records + d
  pub once_kept : IsOnce s → IsOnce t

-- A change of other fields.
pub still :
    (s t : RecoveringSession)
    → t.attempt_ordinal ≡ s.attempt_ordinal
    → t.attempts_started ≡ s.attempts_started
    → t.recovery_attempts ≡ s.recovery_attempts
    → t.attempt_records ≡ s.attempt_records
    → t.lease_releases ≡ s.lease_releases
    → t.released ≡ s.released
    → IsFurther 0 0 s t
still s t a b c d e f = record {
  ordinal = omega (arith, a);
  started = omega (arith, b);
  recoveries = omega (arith, c);
  discarded = omega (arith, ap discards d);
  once_kept = λ h. e ∙ h ∙ sym (ap once f);
}

pub IsFurther-trans :
    (n m d e p q : ℕ) (s t u : RecoveringSession)
    → p ≡ n + m
    → q ≡ d + e
    → IsFurther n d s t
    → IsFurther m e t u
    → IsFurther p q s u
IsFurther-trans n m d e p q s t u ep eq h k = record {
  ordinal = omega (arith, ep, h.ordinal, k.ordinal);
  started = omega (arith, ep, h.started, k.started);
  recoveries = omega (arith, ep, h.recoveries, k.recoveries);
  discarded = omega (arith, eq, h.discarded, k.discarded);
  once_kept = λ x. k.once_kept (h.once_kept x);
}

pub release_once-IsFurther : (s : RecoveringSession) → IsFurther 0 0 s (release_once s)
unfolding release_once
release_once-IsFurther s =
    if_elim (IsFurther 0 0 s) s.released (λ e. still s s refl refl refl refl refl refl)
      (λ e. record {
        ordinal = omega arith;
        started = omega arith;
        recoveries = omega arith;
        discarded = omega arith;
        once_kept = λ h. omega (arith, h ∙ ap once e);
      })

pub cancel-IsFurther : (s : RecoveringSession) → IsFurther 0 0 s (cancel s)
unfolding cancel
cancel-IsFurther s =
    let t = record s { cancelled = true } in
    if_elim (IsFurther 0 0 s) (s.terminal || s.cancelled)
      (λ e. still s s refl refl refl refl refl refl)
      (λ e.
        IsFurther-trans 0 0 0 0 0 0 s t (release_once t) (omega arith) (omega arith)
          (still s t refl refl refl refl refl refl) (release_once-IsFurther t))

pub cancel_if-IsFurther : (b : Bool) (s : RecoveringSession) → IsFurther 0 0 s (cancel_if b s)
unfolding cancel_if
cancel_if-IsFurther true s = cancel-IsFurther s
cancel_if-IsFurther false s = still s s refl refl refl refl refl refl

append_one :
    (q : RecoveryAttemptRecord) (s : RecoveringSession)
    → IsFurther 0 (if q.discarded then 1 else 0) s (append_record (some q) s)
unfolding append_record
append_one q s = record {
  ordinal = omega arith;
  started = omega arith;
  recoveries = omega arith;
  discarded = omega (arith, discards-append s.attempt_records (q ∷ []));
  once_kept = λ h. h;
}

-- The record of an attempt that is not discarded.
pub record_kept :
    (o : ℕ) (e : GenerationEvent) (m : Option ℕ × Option ℕ) (s : RecoveringSession)
    → IsFurther 0 0 s (append_record (attempt_record o e m false) s)
unfolding attempt_record append_record
record_kept o (generation_completed r reason u stop) m s = append_one _ s
record_kept o (generation_failed r error) m s = append_one _ s
record_kept o (generation_cancelled r) m s = append_one _ s
record_kept o _ m s = still s s refl refl refl refl refl refl

pub record_failed :
    (o : ℕ) (r : String) (error : CanonicalError) (m : Option ℕ × Option ℕ) (d : Bool)
    (s : RecoveringSession)
    → IsFurther 0
        (if d then 1 else 0)
        s
        (append_record (attempt_record o (generation_failed r error) m d) s)
unfolding attempt_record append_record
record_failed o r error m d s = append_one _ s
