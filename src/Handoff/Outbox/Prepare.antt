-- ===== src/Handoff/Outbox/Prepare.antt =====
-- The prepare phase of the outbox: sourceHandoffOutbox.attempt
-- (internal/daemon/handoff_outbox.go). A clock reading that is overwritten is not taken.
use arcmux.Prelude.{Bool, true, false, ◌&&◌, none, String, if◌then◌else◌}
use arcmux.Prelude.Text.{Text, codes, text_eq}
use arcmux.Prelude.Results.{Result, ok, err}
use arcmux.Handoff.Manifest.{Env}
use arcmux.Handoff.Record.{
  TargetState, SourceState, Failure, FailureCode, SourceRecord, queued, preparing_remote,
  remote_prepared, source_retry_wait, source_failed, received, validating, prepared, waiting_assets,
  rejected, conflict, unavailable, missing_asset, verification_failed, is_preparing,
}
use arcmux.Handoff.Action.{Action, Kind, not_found, pure, raise, ask, ◌>>=◌}
use arcmux.Handoff.Action as Act
use arcmux.Handoff.Outbox.{Peer, Dto, Status, CallError, record_dto, source_call_failure}
use arcmux.Handoff.Outbox.Steps.{
  read_record, transition, source_transition_time, transition_retry, transition_failed, enter,
  is_early, reported_code,
}

-- What the state of a record asks for
pub data Gate : Type 0 where
  proceed rest outside : Gate

unfoldable pub failure_of : FailureCode → String → Bool → Failure
failure_of code message retryable = record {
  code = code;
  message = codes message;
  retryable = retryable;
  at = 0;
}

-- A status that is about another handoff
unfoldable pub identity_conflict : Failure
unfolding failure_of
identity_conflict = failure_of conflict "target returned conflicting handoff identity" false

unfoldable pub is_same_handoff : SourceRecord → Status → Bool
is_same_handoff r remote =
    text_eq remote.handoff_id r.manifest.handoff_id && text_eq remote.manifest_digest r.digest

abbrev pub early_gate : Bool → Gate
early_gate true = rest
early_gate false = proceed

module _ {W : Type 0} (env : Env) (peer : Peer W) where
  unfoldable pub prepare_gate : SourceRecord → Bool → SourceState → Action W Gate
  unfolding is_early
  prepare_gate r force queued = pure proceed
  prepare_gate r force source_retry_wait = do
    early ← is_early env peer force r.next_retry
    pure (early_gate early)
  prepare_gate r force preparing_remote = pure proceed
  prepare_gate r force remote_prepared = pure rest
  prepare_gate r force source_failed = pure rest
  prepare_gate r force _ = pure outside

  -- The switch on the target's state
  unfoldable pub settle_prepared : SourceRecord → Status → TargetState → Action W Dto
  settle_prepared r remote prepared = do
    at ← source_transition_time env peer r.updated
    q ←
        transition env peer r.manifest.handoff_id r.revision remote_prepared
          (record { at = at; next_retry = none; failure = none; target_locator = none })
    pure (record_dto q)
  settle_prepared r remote received =
      transition_retry env peer r
        (failure_of unavailable "target handoff preparation is still in progress" true)
  settle_prepared r remote validating =
      transition_retry env peer r
        (failure_of unavailable "target handoff preparation is still in progress" true)
  settle_prepared r remote waiting_assets =
      transition_retry env peer r
        (failure_of missing_asset "target is waiting for synchronized handoff assets" true)
  settle_prepared r remote rejected = transition_failed env peer r (
      failure_of (reported_code verification_failed remote.failure)
        "target rejected handoff preparation" false)
  settle_prepared r remote _ =
      transition_failed env peer r
        (failure_of conflict "target returned a state outside handoff preparation" false)

  -- What a failed call leads to, from the failure and whether it can be retried
  unfoldable pub settle_call_failure : SourceRecord → Failure × Bool → Action W Dto
  settle_call_failure r (f, true) = transition_retry env peer r f
  settle_call_failure r (f, false) = transition_failed env peer r f

  unfoldable pub settle_prepare : SourceRecord → Result CallError Status → Action W Dto
  settle_prepare r (err e) = settle_call_failure r (source_call_failure e r.updated)
  settle_prepare r (ok remote) =
      if is_same_handoff r remote
      then settle_prepared r remote remote.state
      else transition_failed env peer r identity_conflict

  -- attempt, past its gate
  unfoldable pub attempt_at : SourceRecord → Gate → Action W Dto
  unfolding enter settle_prepare
  attempt_at r rest = pure (record_dto r)
  attempt_at r outside = raise Act.conflict
  attempt_at r proceed = do
    q ← enter env peer (is_preparing r.state) preparing_remote r
    remote ← ask (peer.call_prepare q.manifest.target.device_id q.manifest)
    settle_prepare q remote

  unfoldable pub attempt : Text → Bool → Action W Dto
  unfolding read_record prepare_gate attempt_at
  attempt id force = do
    r ← read_record env peer (λ e. not_found) id
    gate ← prepare_gate r force r.state
    attempt_at r gate
