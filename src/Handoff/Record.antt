-- ===== src/Handoff/Record.antt =====
-- The durable records of a handoff, their validation and the legal transitions
-- (internal/handoff/record.go). Instants are UTC: the location of a time is not modelled.
pub mod Validate
use arcmux.Prelude.{
  Time, ℤ, pos, leb_ℤ, ℕ, Bool, true, false, not, ◌&&◌, ◌||◌, Option, none, some, [], ◌∷◌, any,
  length, leb, ltb, ◌==◌, is_zero, after,
}
use arcmux.Prelude.Text.{Text, text_eq}
use arcmux.Handoff.Manifest.{Env, Manifest, is_safe_id, is_profile_scope}
use arcmux.Handoff.Manifest.Validate.{digest_of}
use arcmux.Handoff.Manifest.Fields.{mem}

-- The constants of each string type, with every other string.
pub data SourceState : Type 0 where
  queued preparing_remote remote_prepared launching_remote source_accepted : SourceState
  source_retry_wait launch_retry_wait source_failed : SourceState
  other_source : Text → SourceState

pub data TargetState : Type 0 where
  received validating prepared waiting_assets launching launch_waiting_assets : TargetState
  target_accepted rejected : TargetState
  other_target : Text → TargetState

pub data FailureCode : Type 0 where
  unavailable unauthorized invalid_manifest conflict missing_asset : FailureCode
  verification_failed launch_failed internal : FailureCode
  other_failure : Text → FailureCode

pub record Failure : Type 0 where
  pub code : FailureCode
  pub message : Text
  pub retryable : Bool
  pub at : Time

pub record TargetLocator : Type 0 where
  pub device_id : Text
  pub profile_scope : Text
  pub session_id : Text

pub data AcknowledgementPhase : Type 0 where
  context_loaded_phase : AcknowledgementPhase
  other_phase : Text → AcknowledgementPhase

pub record ContextAcknowledgement : Type 0 where
  pub phase : AcknowledgementPhase
  pub manifest_digest : Text
  pub target_locator : TargetLocator
  pub acknowledged_at : Time

pub data RetirementMode : Type 0 where
  immediate after_turn_end : RetirementMode
  other_mode : Text → RetirementMode

pub data RetirementState : Type 0 where
  pending retired : RetirementState
  other_retirement : Text → RetirementState

pub record TurnObservation : Type 0 where
  pub turn_count : ℤ
  pub last_turn_end_at : Option Time

pub record SourceRetirement : Type 0 where
  pub mode : RetirementMode
  pub state : RetirementState
  pub requested_at : Time
  pub timeout_seconds : ℤ
  pub baseline_turn_count : ℤ
  pub baseline_last_turn_end_at : Option Time
  pub retired_at : Option Time

pub record SourceRecord : Type 0 where
  pub version : ℕ
  pub manifest : Manifest
  pub digest : Text
  pub state : SourceState
  pub attempts : ℕ  -- uint32
  pub next_retry : Option Time
  pub failure : Option Failure
  pub target_locator : Option TargetLocator
  pub context_loaded : Option ContextAcknowledgement
  pub retirement : Option SourceRetirement
  pub revision : ℕ  -- uint64
  pub updated : Time

pub record TargetRecord : Type 0 where
  pub version : ℕ
  pub manifest : Manifest
  pub digest : Text
  pub state : TargetState
  pub attempts : ℕ  -- uint32
  pub next_retry : Option Time
  pub failure : Option Failure
  pub target_locator : Option TargetLocator
  pub context_loaded : Option ContextAcknowledgement
  pub revision : ℕ  -- uint64
  pub updated : Time

pub record Transition : Type 0 where
  pub at : Time
  pub next_retry : Option Time
  pub failure : Option Failure
  pub target_locator : Option TargetLocator

-- validSourceState
unfoldable pub valid_source_state : SourceState → Bool
valid_source_state (other_source s) = false
valid_source_state _ = true

-- validTargetState
unfoldable pub valid_target_state : TargetState → Bool
valid_target_state (other_target s) = false
valid_target_state _ = true

unfoldable pub is_source_accepted : SourceState → Bool
is_source_accepted source_accepted = true
is_source_accepted _ = false

unfoldable pub is_source_failed : SourceState → Bool
is_source_failed source_failed = true
is_source_failed _ = false

-- state == SourceRetryWait || state == SourceLaunchRetryWait
unfoldable pub is_source_retry : SourceState → Bool
is_source_retry source_retry_wait = true
is_source_retry launch_retry_wait = true
is_source_retry _ = false

unfoldable pub is_preparing : SourceState → Bool
is_preparing preparing_remote = true
is_preparing _ = false

unfoldable pub is_target_accepted : TargetState → Bool
is_target_accepted target_accepted = true
is_target_accepted _ = false

unfoldable pub is_rejected : TargetState → Bool
is_rejected rejected = true
is_rejected _ = false

-- state == TargetWaitingAssets || state == TargetLaunchWaitingAssets
unfoldable pub is_target_waiting : TargetState → Bool
is_target_waiting waiting_assets = true
is_target_waiting launch_waiting_assets = true
is_target_waiting _ = false

-- The states of a target record that may hold a locator.
unfoldable pub is_launch_phase : TargetState → Bool
is_launch_phase launching = true
is_launch_phase launch_waiting_assets = true
is_launch_phase target_accepted = true
is_launch_phase _ = false

unfoldable pub is_validating : TargetState → Bool
is_validating validating = true
is_validating _ = false

unfoldable pub legal_source_transition : SourceState → SourceState → Bool
legal_source_transition queued preparing_remote = true
legal_source_transition queued source_failed = true
legal_source_transition preparing_remote remote_prepared = true
legal_source_transition preparing_remote source_retry_wait = true
legal_source_transition preparing_remote source_failed = true
legal_source_transition remote_prepared launching_remote = true
legal_source_transition remote_prepared source_retry_wait = true
legal_source_transition remote_prepared source_failed = true
legal_source_transition launching_remote source_accepted = true
legal_source_transition launching_remote launch_retry_wait = true
legal_source_transition launching_remote source_failed = true
legal_source_transition source_retry_wait preparing_remote = true
legal_source_transition source_retry_wait source_failed = true
legal_source_transition launch_retry_wait launching_remote = true
legal_source_transition launch_retry_wait source_failed = true
legal_source_transition _ _ = false

unfoldable pub legal_target_transition : TargetState → TargetState → Bool
legal_target_transition received validating = true
legal_target_transition received rejected = true
legal_target_transition validating prepared = true
legal_target_transition validating waiting_assets = true
legal_target_transition validating rejected = true
legal_target_transition waiting_assets validating = true
legal_target_transition waiting_assets rejected = true
legal_target_transition prepared launching = true
legal_target_transition prepared rejected = true
legal_target_transition launching target_accepted = true
legal_target_transition launching launch_waiting_assets = true
legal_target_transition launching rejected = true
legal_target_transition launch_waiting_assets launching = true
legal_target_transition launch_waiting_assets rejected = true
legal_target_transition _ _ = false
