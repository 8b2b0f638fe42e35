-- ===== src/Handoff/Store.antt =====
-- What both sides of the handoff store share: errors, counters, the time of a write and
-- applyTransition (internal/handoff/store.go).
use arcmux.Prelude.{
  Time, ℕ, ◌+◌, ◌%◌, Bool, true, false, Option, none, some, if◌then◌else◌, is_zero,
}
use arcmux.Prelude.Results.{Result, ok, err}
use arcmux.Handoff.Record.{Failure, TargetLocator}

-- The named errors of the package; `refused` is any other.
pub data Error : Type 0 where
  not_found manifest_conflict cas_conflict illegal_transition : Error
  acknowledgement_unavailable target_not_accepted context_not_loaded refused : Error

-- Revision++ on a uint64, and Attempts++ on a uint32
unfoldable pub next_revision : ℕ → ℕ
next_revision n = (n + 1) % 18_446_744_073_709_551_616

unfoldable pub next_attempt : ℕ → ℕ
next_attempt n = (n + 1) % 4_294_967_296

-- A zero time asks for the store's clock.
unfoldable pub time_or : Time → Time → Time
time_or at now = if is_zero at then now else at

-- The three fields that applyTransition sets.
pub record Applied : Type 0 where
  pub next_retry : Option Time
  pub failure : Option Failure
  pub locator : Option TargetLocator

abbrev allowed_locator : Option TargetLocator → Option TargetLocator → Option TargetLocator
allowed_locator none locator = locator
allowed_locator (some l) locator = some l

-- The locator that applyTransition leaves, from the transition's and the record's.
unfoldable pub apply_locator :
    Bool → Option TargetLocator → Option TargetLocator → Result Error (Option TargetLocator)
apply_locator true given locator = ok (allowed_locator given locator)
apply_locator false (some l) locator = err refused
apply_locator false none locator = ok none

unfoldable pub apply_failure : Bool → Bool → Option Failure → Option Failure
apply_failure true terminal_failure f = f
apply_failure false true f = f
apply_failure false false f = none

unfoldable pub apply_retry : Bool → Option Time → Option Time
apply_retry true t = t
apply_retry false t = none
