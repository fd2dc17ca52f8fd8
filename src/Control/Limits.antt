-- ===== src/Control/Limits.antt =====
-- control/request.py: an output limit that the server chooses is one that it accepts.
use ex_qserve.Base.{ℕ, ◌+◌, ◌-◌, ◌≤◌, ◌<◌, min, Option, none, some, ◌≡◌, arith}
use ex_qserve.Control.{
  RequestControlConfig, resolved, resolve_output_limit, automatic_limit, positive_limit,
  validate_limits,
}

abbrev pub IsWithin : Option ℕ → ℕ → Type 0
IsWithin none n = Unit {0}
IsWithin (some limit) n = n ≤ limit

positive_limit_lem : (m n : ℕ) → positive_limit m ≡ resolved n → (m ≡ n) × (0 < n)
unfolding positive_limit
positive_limit_lem m n h = ground arith

automatic_limit-IsWithin :
    (prompt : ℕ) (total output : Option ℕ) (n : ℕ)
    → automatic_limit prompt total output ≡ resolved n
    → (0 < n) × IsWithin output n × IsWithin total (prompt + n)
unfolding automatic_limit
automatic_limit-IsWithin prompt none none n h = ground arith
automatic_limit-IsWithin prompt (some t) none n h =
    ground (arith, positive_limit_lem (t - prompt) n)
automatic_limit-IsWithin prompt none (some o) n h = ground (arith, positive_limit_lem o n)
automatic_limit-IsWithin prompt (some t) (some o) n h =
    ground (arith, positive_limit_lem (min (t - prompt) o) n)

validate_limits-none :
    (c : RequestControlConfig) (prompt n : ℕ)
    → IsWithin c.max_prompt_tokens prompt
    → IsWithin c.max_output_tokens n
    → IsWithin c.max_total_tokens (prompt + n)
    → validate_limits c prompt n ≡ none
unfolding validate_limits
validate_limits-none c prompt n p o t = ground arith

-- When no limit is requested, the limit that is resolved is positive, leaves the prompt and the
-- output within the configured maxima, and passes the check of the limits, if the prompt does not
-- exceed its own maximum.
pub resolve_output_limit_accepted :
    (c : RequestControlConfig) (prompt n : ℕ)
    → resolve_output_limit c prompt none ≡ resolved n
    → IsWithin c.max_prompt_tokens prompt
    → (0 < n)
      × IsWithin c.max_output_tokens n
      × IsWithin c.max_total_tokens (prompt + n)
      × (validate_limits c prompt n ≡ none)
unfolding resolve_output_limit
resolve_output_limit_accepted c prompt n h p =
    let (pos, o, t) = automatic_limit-IsWithin prompt c.max_total_tokens c.max_output_tokens n h in
    (pos, o, t, validate_limits-none c prompt n p o t)
