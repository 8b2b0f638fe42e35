-- ===== src/Handoff/Outbox/Retire.antt =====
-- The verification of a launched handoff and the retirement of its source session: verify, retire
-- and retirePending of the outbox (internal/daemon/handoff_outbox.go).
use arcmux.Prelude.{
  Time, ℤ, pos, Bool, true, false, not, ◌&&◌, ◌||◌, Option, none, some, if◌then◌else◌, after,
}
use arcmux.Prelude.Text.{Text, codes, text_eq}
use arcmux.Prelude.Results.{Result, ok, err}
use arcmux.Handoff.Manifest.{Env}
use arcmux.Handoff.Record.{
  SourceRecord, SourceRetirement, RetirementMode, TurnObservation, ContextAcknowledgement,
  TargetLocator, after_turn_end, is_source_accepted,
}
use arcmux.Handoff.Record.Validate.{locator_eq}
use arcmux.Handoff.Store.{Error, not_found}
use arcmux.Handoff.Source.Proofs.{
  record_source_context_loaded, request_source_retirement, complete_source_retirement, is_pending,
  is_retired, is_some, mode_eq, eq_ℤ, seconds_of,
}
use arcmux.Handoff.Action as Act
use arcmux.Handoff.Action.{Action, State, Kind, pure, raise, ask, ◌>>=◌}
use arcmux.Handoff.Outbox.{
  Peer, Dto, Detail, Turn, Verification, CallError, VerificationState, mismatch,
  pending_verification, verification_unavailable, permission_denied, invalid_request, record_dto,
}
use arcmux.Handoff.Outbox.Steps.{read_record, source_transition_time, written}

-- A missing record is told apart from every other error of GetSource.
unfoldable pub get_error : Error → Kind
get_error not_found = Act.not_found
get_error _ = Act.invalid

-- The view of a record whose target is not verified
unfoldable pub unverified : SourceRecord → VerificationState → Dto
unverified r v = record (record_dto r) { verification_state = v; context_loaded = false }

-- What a failed verification call says
unfoldable pub failed_call_state : CallError → VerificationState
failed_call_state e = elim e.rpc [
  | some invalid_request ↦ mismatch
  | some permission_denied ↦ mismatch
  | _ ↦ verification_unavailable
]

-- turnObservation
unfoldable pub turn_observation : Detail → TurnObservation
turn_observation d = elim d.turn [
  | none ↦ record { turn_count = pos 0; last_turn_end_at = none }
  | some t ↦ record { turn_count = t.turn_count; last_turn_end_at = t.last_turn_end_at }
]

unfoldable pub is_after_turn_end : RetirementMode → Bool
is_after_turn_end after_turn_end = true
is_after_turn_end _ = false

-- The turn of a detail that ends a retirement after the turn
unfoldable pub turn_is_over : SourceRetirement → Option Turn → Bool
turn_is_over t none = false
turn_is_over t (some u) = elim u.last_turn_end_at [
  | none ↦ false
  | some ended ↦ eq_ℤ u.turn_count t.baseline_turn_count && after ended t.requested_at
]

-- sourceAfterTurnRetirementReady, on the retirement of the record
unfoldable pub source_after_turn_retirement_ready : SourceRetirement → Detail → Bool
unfolding is_after_turn_end turn_is_over
source_after_turn_retirement_ready t d = is_after_turn_end t.mode && turn_is_over t d.turn

-- An answer about another handoff or another locator
unfoldable pub is_other_answer : SourceRecord → TargetLocator → Verification → Bool
is_other_answer r l v = not (
    text_eq v.handoff_id r.manifest.handoff_id
    && (text_eq v.manifest_digest r.digest && locator_eq v.target_locator l))

unfoldable pub is_unproved : Verification → Bool
is_unproved v = not (v.context_loaded && text_eq v.verification_state (codes "context_loaded"))

unfoldable pub is_exited : Detail → Bool
is_exited d = text_eq d.state (codes "exited")

module _ {W : Type 0} (env : Env) (peer : Peer W) where
  -- The last step of verify: an error of the store is a mismatch.
  unfoldable pub record_proof_or : SourceRecord → ContextAcknowledgement → Time → Action W Dto
  record_proof_or r a at s =
      elim (record_source_context_loaded env (peer.store_now s.world) r.manifest.handoff_id
        r.revision a at s.files) [
          | ok (q, replay, files) ↦ (ok (record_dto q), record s { files = files })
          | err e ↦ (ok (unverified r mismatch), s)
        ]

  unfoldable pub record_verified : SourceRecord → Option ContextAcknowledgement → Action W Dto
  record_verified r none = pure (unverified r mismatch)
  record_verified r (some a) = do
    at ← source_transition_time env peer r.updated
    record_proof_or r a at

  -- What verify makes of the target's answer
  unfoldable pub settle_verify :
      SourceRecord → TargetLocator → Result CallError Verification → Action W Dto
  settle_verify r l (err e) = pure (unverified r (failed_call_state e))
  settle_verify r l (ok v) =
      if is_other_answer r l v
      then pure (unverified r mismatch)
      else if is_unproved v
      then pure (unverified r pending_verification)
      else record_verified r v.acknowledgement

  unfoldable pub verify_at : SourceRecord → Option TargetLocator → Action W Dto
  unfolding settle_verify
  verify_at r none = raise Act.conflict
  verify_at r (some l) = if not (is_source_accepted r.state) then raise Act.conflict else (do
    answer ← ask (peer.call_verify r.manifest.target.device_id r.manifest.handoff_id r.digest l)
    settle_verify r l answer)

  unfoldable pub verify : Text → Action W Dto
  unfolding read_record verify_at get_error
  verify id = do r ← read_record env peer get_error id; verify_at r r.target_locator

  unfoldable pub exact : SourceRecord → Option Detail → Option Detail
  exact r none = none
  exact r (some d) =
      if text_eq d.profile_scope r.manifest.source.profile_scope
        && text_eq d.session_id r.manifest.source.session_id
      then some d
      else none

  -- lookupExactSource
  unfoldable pub lookup_exact_source : SourceRecord → Action W (Option Detail)
  unfolding exact
  lookup_exact_source r = do
    d ← ask (peer.lookup_session r.manifest.source.profile_scope r.manifest.source.session_id)
    pure (exact r d)

  -- CompleteSourceRetirement, where an error leaves the view of the record
  unfoldable pub complete_or : SourceRecord → Time → Action W Dto
  complete_or r at s =
      elim (complete_source_retirement env (peer.store_now s.world) r.manifest.handoff_id r.revision
        at s.files) [
          | ok (q, replay, files) ↦ (ok (record_dto q), record s { files = files })
          | err e ↦ (ok (record_dto r), s)
        ]

  unfoldable pub complete : SourceRecord → Action W Dto
  complete r = do at ← source_transition_time env peer r.updated; complete_or r at

  -- What follows the close: only a session that is seen to have exited is retired.
  unfoldable pub confirm_closed : SourceRecord → Option Detail → Action W Dto
  unfolding complete
  confirm_closed r none = pure (record_dto r)
  confirm_closed r (some d) = if is_exited d then complete r else pure (record_dto r)

  unfoldable pub close_and_confirm : SourceRecord → SourceRetirement → Action W Dto
  close_and_confirm r t = do
    closed ← ask (peer.close_source r.manifest.source t.timeout_seconds)
    if not closed then pure (record_dto r) else (do d ← lookup_exact_source r; confirm_closed r d)

  -- retirePending, on the pending retirement and the session that is found
  unfoldable pub retire_found : SourceRecord → SourceRetirement → Option Detail → Action W Dto
  retire_found r t none = pure (record_dto r)
  retire_found r t (some d) =
      if is_exited d
      then complete r
      else if is_after_turn_end t.mode && not (source_after_turn_retirement_ready t d)
      then pure (record_dto r)
      else close_and_confirm r t

  unfoldable pub retire_asked : SourceRecord → Option SourceRetirement → Action W Dto
  retire_asked r none = pure (record_dto r)
  retire_asked r (some t) =
      if not (is_pending t.state)
      then pure (record_dto r)
      else (do d ← lookup_exact_source r; retire_found r t d)

  unfoldable pub retire_pending : SourceRecord → Action W Dto
  unfolding retire_asked
  retire_pending r = retire_asked r r.retirement

  -- RequestSourceRetirement, where every error is a conflict
  unfoldable pub request_retirement :
      SourceRecord → RetirementMode → ℤ → TurnObservation → Time → Action W SourceRecord
  request_retirement r mode timeout baseline at s = written env peer Act.conflict s (
      request_source_retirement env (peer.store_now s.world) r.manifest.handoff_id r.revision mode
        timeout baseline at s.files)

  -- retire, once the request is stored
  unfoldable pub retire_requested :
      SourceRecord → RetirementMode → Option SourceRetirement → Action W Dto
  retire_requested r mode none = pure (record_dto r)
  retire_requested r mode (some t) =
      if is_retired t.state || is_after_turn_end mode then pure (record_dto r) else retire_pending r

  unfoldable pub request_for :
      SourceRecord → RetirementMode → ℤ → Option Detail → Action W SourceRecord
  request_for r mode timeout none = raise Act.conflict
  request_for r mode timeout (some d) = do
    at ← source_transition_time env peer r.updated
    request_retirement r mode timeout (turn_observation d) at

  -- retire, from the retirement that the record has
  unfoldable pub request_or_keep :
      SourceRecord → RetirementMode → ℤ → Option SourceRetirement → Action W SourceRecord
  request_or_keep r mode timeout none = do d ← lookup_exact_source r; request_for r mode timeout d
  request_or_keep r mode timeout (some t) =
      if mode_eq t.mode mode && eq_ℤ t.timeout_seconds (seconds_of timeout)
      then pure r
      else raise Act.conflict

  unfoldable pub retire_accepted : SourceRecord → RetirementMode → ℤ → Action W Dto
  retire_accepted r mode timeout =
      if not (is_source_accepted r.state && is_some r.context_loaded)
      then raise Act.conflict
      else if not (text_eq r.manifest.source.device_id peer.device_id)
      then raise Act.conflict
      else (do
        q ← request_or_keep r mode timeout r.retirement
        retire_requested q mode q.retirement)

  unfoldable pub retire : Text → RetirementMode → ℤ → Action W Dto
  unfolding read_record get_error retire_accepted
  retire id mode timeout = do r ← read_record env peer get_error id; retire_accepted r mode timeout
