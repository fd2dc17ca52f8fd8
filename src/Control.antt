-- ===== src/Control.antt =====
-- control/request.py: the limits of `RequestControlConfig`, and what a rejected request carries.
-- Times are numbers of one clock. `RequestTerminalReason` is declared in Terminal.
pub mod Limits
pub mod Controller
pub mod Session
mod Tests
use ex_qserve.Base.{
  ℕ, ◌+◌, ◌-◌, min, String, Bool, true, false, Option, none, some, if◌then◌else◌, ltb, nat_eq,
}
use ex_qserve.Core.{
  CanonicalError, ErrorCategory, invalid_request, context_length, overloaded, runtime_failure,
}

-- The limits are positive where they are given.
pub record RequestControlConfig : Type 0 where
  pub max_in_flight : ℕ
  pub max_prompt_tokens : Option ℕ
  pub max_output_tokens : Option ℕ
  pub max_total_tokens : Option ℕ
  pub timeout_seconds : Option ℕ

pub record RequestRejected : Type 0 where
  pub error : CanonicalError
  pub attempt_started : Bool

-- _rejection
abbrev pub rejection : ErrorCategory → String → String → Bool → RequestRejected
rejection category code message retryable = record {
  error = record {
    category = category;
    code = code;
    message = message;
    retryable = retryable;
    cause = none;
  };
  attempt_started = false;
}

abbrev pub shutting_down : RequestRejected
shutting_down = rejection overloaded "server_shutting_down" "Server is shutting down." true

-- How `resolve_output_limit` ends; `unconfigured` is its ValueError.
pub data OutputLimit : Type 0 where
  resolved : ℕ → OutputLimit
  no_room : RequestRejected → OutputLimit
  unconfigured : OutputLimit

abbrev pub no_room_for_output : RequestRejected
no_room_for_output =
    rejection context_length "total_context_limit_exceeded"
      "Prompt leaves no room for model output within the served context." false

-- `resolved <= 0`; the difference of the source may be negative where the one here stops at 0.
unfoldable pub positive_limit : ℕ → OutputLimit
positive_limit n = if nat_eq n 0 then no_room no_room_for_output else resolved n

unfoldable pub automatic_limit : ℕ → Option ℕ → Option ℕ → OutputLimit
unfolding positive_limit
automatic_limit prompt_tokens none none = unconfigured
automatic_limit prompt_tokens (some total) none = positive_limit (total - prompt_tokens)
automatic_limit prompt_tokens none (some output) = positive_limit output
automatic_limit prompt_tokens (some total) (some output) =
    positive_limit (min (total - prompt_tokens) output)

-- A requested limit is positive.
unfoldable pub resolve_output_limit : RequestControlConfig → ℕ → Option ℕ → OutputLimit
unfolding automatic_limit
resolve_output_limit c prompt_tokens (some requested) = resolved requested
resolve_output_limit c prompt_tokens none =
    automatic_limit prompt_tokens c.max_total_tokens c.max_output_tokens

-- `limit is not None and count > limit`
abbrev pub exceeds : Option ℕ → ℕ → Bool
exceeds none count = false
exceeds (some limit) count = ltb limit count

unfoldable pub validate_limits : RequestControlConfig → ℕ → ℕ → Option RequestRejected
validate_limits c prompt_count output_count =
    if exceeds c.max_prompt_tokens prompt_count
    then some
        (rejection context_length "prompt_limit_exceeded" "Prompt token limit exceeded." false)
    else if exceeds c.max_output_tokens output_count
    then some (
        rejection invalid_request "output_limit_exceeded" "Requested output token limit exceeded."
          false)
    else if exceeds c.max_total_tokens (prompt_count + output_count)
    then some (
        rejection context_length "total_context_limit_exceeded"
          "Total requested context limit exceeded." false)
    else none
