-- ===== src/Handoff/Outbox/Launch.antt =====
-- The launch phase of the outbox: sourceHandoffOutbox.attemptLaunch
-- (internal/daemon/handoff_outbox.go).
use arcmux.Prelude.{Bool, true, false, ◌&&◌, Option, none, some, if◌then◌else◌}
use arcmux.Prelude.Text.{Text, codes, text_eq}
use arcmux.Prelude.Results.{Result, ok, err}
use arcmux.Handoff.Manifest.{Env}
use arcmux.Handoff.Record.{
  TargetState, SourceState, Failure, SourceRecord, TargetLocator, remote_prepared, launching_remote,
  launch_retry_wait, source_accepted, source_failed, launching, launch_waiting_assets,
  target_accepted, rejected, conflict, unavailable, launch_failed,
}
use arcmux.Handoff.Action.{Action, Kind, not_found, pure, raise, ask, ◌>>=◌}
use arcmux.Handoff.Action as Act
use arcmux.Handoff.Outbox.{Peer, Dto, Status, CallError, record_dto, source_launch_call_failure}
use arcmux.Handoff.Outbox.Steps.{
  read_record, transition, source_transition_time, transition_launch_retry, transition_failed,
  enter, is_early, reported_code,
}
use arcmux.Handoff.Outbox.Prepare.{
  Gate, proceed, rest, outside, identity_conflict, is_same_handoff, failure_of, early_gate,
}

unfoldable pub locator_conflict : Failure
unfolding failure_of
locator_conflict =
    failure_of conflict "target accepted launch without the prepared continuation locator" false

unfoldable pub is_launching : SourceState → Bool
is_launching launching_remote = true
is_launching _ = false

module _ {W : Type 0} (env : Env) (peer : Peer W) where
  unfoldable pub launch_gate : SourceRecord → Bool → SourceState → Action W Gate
  unfolding is_early
  launch_gate r force remote_prepared = pure proceed
  launch_gate r force launch_retry_wait = do
    early ← is_early env peer force r.next_retry
    pure (early_gate early)
  launch_gate r force launching_remote = pure proceed
  launch_gate r force source_accepted = pure rest
  launch_gate r force source_failed = pure rest
  launch_gate r force _ = pure outside

  -- validLocator
  unfoldable pub is_valid_locator : SourceRecord → Option TargetLocator → Bool
  is_valid_locator r none = false
  is_valid_locator r (some l) =
      text_eq l.device_id r.manifest.target.device_id
      && (text_eq l.profile_scope (codes "root") && peer.valid_session_id l.session_id)

  -- The switch on the target's state
  unfoldable pub settle_launched : SourceRecord → Status → TargetState → Action W Dto
  settle_launched r remote target_accepted =
      if is_valid_locator r remote.target_locator
      then (do
        at ← source_transition_time env peer r.updated
        q ← transition env peer r.manifest.handoff_id r.revision source_accepted (record {
          at = at;
          next_retry = none;
          failure = none;
          target_locator = remote.target_locator;
        })
        pure (record_dto q))
      else transition_failed env peer r locator_conflict
  settle_launched r remote launching =
      transition_launch_retry env peer r
        (failure_of unavailable "target launch is still in progress" true)
  settle_launched r remote launch_waiting_assets = transition_launch_retry env peer r (
      failure_of (reported_code launch_failed remote.failure)
        "target launch is waiting for local readiness" true)
  settle_launched r remote rejected = transition_failed env peer r (
      failure_of (reported_code launch_failed remote.failure) "target rejected handoff launch"
        false)
  settle_launched r remote _ =
      transition_failed env peer r
        (failure_of conflict "target returned a state outside handoff launch" false)

  unfoldable pub settle_launch_failure : SourceRecord → Failure × Bool → Action W Dto
  settle_launch_failure r (f, true) = transition_launch_retry env peer r f
  settle_launch_failure r (f, false) = transition_failed env peer r f

  unfoldable pub settle_launch : SourceRecord → Result CallError Status → Action W Dto
  settle_launch r (err e) = settle_launch_failure r (source_launch_call_failure e r.updated)
  settle_launch r (ok remote) =
      if is_same_handoff r remote
      then settle_launched r remote remote.state
      else transition_failed env peer r identity_conflict

  -- attemptLaunch, past its gate
  unfoldable pub attempt_launch_at : SourceRecord → Gate → Action W Dto
  unfolding enter settle_launch
  attempt_launch_at r rest = pure (record_dto r)
  attempt_launch_at r outside = raise Act.conflict
  attempt_launch_at r proceed = do
    q ← enter env peer (is_launching r.state) launching_remote r
    remote ← ask (peer.call_launch q.manifest.target.device_id q.manifest.handoff_id q.digest)
    settle_launch q remote

  unfoldable pub attempt_launch : Text → Bool → Action W Dto
  unfolding read_record launch_gate attempt_launch_at
  attempt_launch id force = do
    r ← read_record env peer (λ e. not_found) id
    gate ← launch_gate r force r.state
    attempt_launch_at r gate
