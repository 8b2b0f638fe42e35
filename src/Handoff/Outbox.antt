-- ===== src/Handoff/Outbox.antt =====
-- The source daemon's handoff outbox (internal/daemon/handoff_outbox.go): its view of a record,
-- what it asks of the world, and how it reads a failed call.
pub mod Steps
pub mod Prepare
pub mod Launch
pub mod Retire
pub mod Passes
pub mod Keeps
pub mod Phases
pub mod Retirements
pub mod Verifications
pub mod Candidates
pub mod Calls
pub mod Recovery
pub mod Exits
pub mod Delays
use arcmux.Prelude.{
  Time, ℤ, ℕ, String, Bool, true, false, not, ◌&&◌, ◌||◌, Option, none, some, if◌then◌else◌, after,
}
use arcmux.Prelude.Text.{Text, codes, text_eq}
use arcmux.Prelude.Results.{Result}
use arcmux.Handoff.Manifest.{Manifest, SourceSession}
use arcmux.Handoff.Record.{
  SourceState, TargetState, FailureCode, Failure, TargetLocator, ContextAcknowledgement,
  RetirementState, SourceRecord, SourceRetirement, unavailable, unauthorized, invalid_manifest,
  internal, is_source_accepted, after_turn_end, RetirementMode,
}

-- meshHandoffFailureDTO
pub record FailureDto : Type 0 where
  pub code : FailureCode
  pub message : Text
  pub retryable : Bool

-- meshHandoffStatus
pub record Status : Type 0 where
  pub handoff_id : Text
  pub manifest_digest : Text
  pub state : TargetState
  pub attempts : ℕ
  pub failure : Option FailureDto
  pub target_locator : Option TargetLocator

-- meshHandoffVerification
pub record Verification : Type 0 where
  pub handoff_id : Text
  pub manifest_digest : Text
  pub target_locator : TargetLocator
  pub verification_state : Text
  pub context_loaded : Bool
  pub acknowledgement : Option ContextAcknowledgement

-- The codes of an RPC error that are told apart, with every other.
pub data RpcCode : Type 0 where
  unsupported_method permission_denied capability_required invalid_request : RpcCode
  backpressure payload_too_large internal_error : RpcCode
  other_code : Text → RpcCode

-- What errors.As and errors.Is find in a failed call
pub record CallError : Type 0 where
  pub rpc : Option RpcCode
  pub method_not_registered : Bool

-- The parts of a session's detail that the outbox reads
pub record Turn : Type 0 where
  pub turn_count : ℤ
  pub last_turn_end_at : Option Time

pub record Detail : Type 0 where
  pub profile_scope : Text
  pub session_id : Text
  pub state : Text
  pub turn : Option Turn

-- sourceHandoffOutbox: the clock, the store's own clock, the calls and the end of the context.
-- `close_source` answers whether it returned no error.
pub record Peer (W : Type 0) : Type 0 where
  pub device_id : Text
  pub now : W → Time × W
  pub store_now : W → Time
  pub lookup_session : Text → Text → W → Option Detail × W
  pub call_prepare : Text → Manifest → W → Result CallError Status × W
  pub call_launch : Text → Text → Text → W → Result CallError Status × W
  pub call_verify : Text → Text → Text → TargetLocator → W → Result CallError Verification × W
  pub close_source : SourceSession → ℤ → W → Bool × W
  pub valid_session_id : Text → Bool
  pub is_done : W → Bool × W

pub data VerificationState : Type 0 where
  not_ready pending_verification verified mismatch verification_unavailable : VerificationState

-- sourceHandoffDTO; a retirement that is not requested is none.
pub record Dto : Type 0 where
  pub handoff_id : Text
  pub manifest_digest : Text
  pub state : SourceState
  pub attempts : ℕ
  pub target_device : Text
  pub target_profile : Text
  pub project : Text
  pub source_locator : SourceSession
  pub failure : Option FailureDto
  pub target_locator : Option TargetLocator
  pub verification_state : VerificationState
  pub context_loaded : Bool
  pub retirement_state : Option RetirementState

unfoldable pub verification_of : SourceState → Option ContextAcknowledgement → VerificationState
verification_of state (some a) = verified
verification_of state none = if is_source_accepted state then pending_verification else not_ready

abbrev pub map_option {ℓ} : {A B : Type ℓ} → (A → B) → Option A → Option B
map_option f none = none
map_option f (some a) = some (f a)

-- sourceHandoffRecordDTO
unfoldable pub record_dto : SourceRecord → Dto
unfolding verification_of
record_dto r = record {
  handoff_id = r.manifest.handoff_id;
  manifest_digest = r.digest;
  state = r.state;
  attempts = r.attempts;
  target_device = r.manifest.target.device_id;
  target_profile = r.manifest.target.profile;
  project = r.manifest.repository.project_slug;
  source_locator = r.manifest.source;
  failure =
      map_option (λ f. record { code = f.code; message = f.message; retryable = f.retryable })
        r.failure;
  target_locator = r.target_locator;
  verification_state = verification_of r.state r.context_loaded;
  context_loaded = elim r.context_loaded [ none ↦ false | some a ↦ true ];
  retirement_state = map_option (λ t. t.state) r.retirement;
}

abbrev failure_at : FailureCode → String → Bool → Time → Failure
failure_at code message retryable at = record {
  code = code;
  message = codes message;
  retryable = retryable;
  at = at;
}

-- What follows when no RPC error decides
unfoldable pub unregistered_or : Bool → String → Time → Failure × Bool
unregistered_or true message at = (failure_at internal message false at, false)
unregistered_or false message at =
    (failure_at unavailable "target peer is temporarily unavailable" true at, true)

-- sourceCallFailure
unfoldable pub source_call_failure : CallError → Time → Failure × Bool
unfolding unregistered_or
source_call_failure e at = elim e.rpc [
  | some permission_denied ↦
      (failure_at unauthorized "target denied handoff preparation" false at, false)
  | some invalid_request ↦
      (failure_at invalid_manifest "target rejected the handoff request" false at, false)
  | some payload_too_large ↦
      (failure_at invalid_manifest "target rejected the handoff request" false at, false)
  | some unsupported_method ↦
      (failure_at invalid_manifest "target rejected the handoff request" false at, false)
  | some capability_required ↦ unregistered_or false "" at
  | some backpressure ↦ unregistered_or false "" at
  | some internal_error ↦ unregistered_or false "" at
  | _ ↦ unregistered_or e.method_not_registered "local handoff protocol is unavailable" at
]

-- sourceLaunchCallFailure
unfoldable pub source_launch_call_failure : CallError → Time → Failure × Bool
unfolding unregistered_or
source_launch_call_failure e at = elim e.rpc [
  | some permission_denied ↦
      (failure_at unauthorized "target launch permission is not granted" true at, true)
  | some invalid_request ↦
      (failure_at invalid_manifest "target rejected the launch request" false at, false)
  | some payload_too_large ↦
      (failure_at invalid_manifest "target rejected the launch request" false at, false)
  | some unsupported_method ↦
      (failure_at invalid_manifest "target rejected the launch request" false at, false)
  | some capability_required ↦ unregistered_or false "" at
  | some backpressure ↦ unregistered_or false "" at
  | some internal_error ↦ unregistered_or false "" at
  | _ ↦ unregistered_or e.method_not_registered "local handoff launch protocol is unavailable" at
]
