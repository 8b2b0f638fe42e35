-- ===== src/Handoff/Outbox/Phases.antt =====
-- The phases of the outbox change the files only by calls of the store for their handoff.
use arcmux.Prelude.{◌≡◌, Bool, true, false, Option, none, if_cases}
use arcmux.Prelude.Text.{Text}
use arcmux.Prelude.Results.{Result, ok, err}
use arcmux.Handoff.Manifest.{Env}
use arcmux.Handoff.Record.{
  SourceState, TargetState, TargetLocator, Failure, SourceRecord, queued, preparing_remote,
  remote_prepared, launching_remote, source_accepted, source_retry_wait, launch_retry_wait,
  source_failed, other_source, received, validating, prepared, waiting_assets, launching,
  launch_waiting_assets, target_accepted, rejected, other_target, is_preparing,
}
use arcmux.Handoff.Files.{Files}
use arcmux.Handoff.Action.{Action, Does, pure, ◌>>=◌, conflict, not_found}
use arcmux.Handoff.Outbox.{
  Peer, Status, CallError, record_dto, source_call_failure, source_launch_call_failure,
}
use arcmux.Handoff.Outbox.Steps.{
  transition, source_transition_time, transition_retry, transition_launch_retry, transition_failed,
  is_early,
}
use arcmux.Handoff.Outbox.Prepare.{
  Gate, identity_conflict, is_same_handoff, proceed, rest, outside, prepare_gate, settle_prepared,
  settle_call_failure, settle_prepare, attempt_at, attempt,
}
use arcmux.Handoff.Outbox.Launch.{
  launch_gate, settle_launched, settle_launch_failure, settle_launch, attempt_launch_at,
  attempt_launch, is_launching, locator_conflict, is_valid_locator,
}
use arcmux.Handoff.Outbox.Keeps as Frame
use arcmux.Handoff.Outbox.Keeps.{IsFrame}

module _ {W : Type 0} (env : Env) (peer : Peer W) (id : Text)
    (P : Files SourceRecord → Files SourceRecord → Type 0) (frame : IsFrame env id P) where
  abbrev Keeps : {A : Type 0} → Action W A → Type 0
  Keeps m = Does P (λ a. Unit) m

  abbrev IsNamed : SourceRecord → Type 0
  IsNamed r = r.manifest.handoff_id ≡ id

  rests : {A : Type 0} (a : A) → Keeps (pure a)
  rests a = Frame.pure-Keeps env peer id P frame a

  retries : (r : SourceRecord) (f : Failure) → IsNamed r → Keeps (transition_retry env peer r f)
  retries = Frame.retry-Keeps env peer id P frame

  relaunches :
      (r : SourceRecord) (f : Failure) → IsNamed r → Keeps (transition_launch_retry env peer r f)
  relaunches = Frame.launch_retry-Keeps env peer id P frame

  fails : (r : SourceRecord) (f : Failure) → IsNamed r → Keeps (transition_failed env peer r f)
  fails = Frame.failed-Keeps env peer id P frame

  early_gate-Keeps :
      (r : SourceRecord) (force : Bool) (f : Bool → Gate)
      → Keeps (is_early env peer force r.next_retry >>= λ early. pure (f early))
  early_gate-Keeps r force f =
      Frame.then-Keeps env peer id P frame (is_early env peer force r.next_retry) _
        (Frame.early-Keeps env peer id P frame force r.next_retry) (λ early. rests (f early))

  prepare_gate-Keeps :
      (r : SourceRecord) (force : Bool) (s : SourceState) → Keeps (prepare_gate env peer r force s)
  unfolding prepare_gate
  prepare_gate-Keeps r force queued = rests _
  prepare_gate-Keeps r force source_retry_wait = early_gate-Keeps r force _
  prepare_gate-Keeps r force preparing_remote = rests _
  prepare_gate-Keeps r force remote_prepared = rests _
  prepare_gate-Keeps r force source_failed = rests _
  prepare_gate-Keeps r force launching_remote = rests _
  prepare_gate-Keeps r force launch_retry_wait = rests _
  prepare_gate-Keeps r force source_accepted = rests _
  prepare_gate-Keeps r force (other_source t) = rests _

  dated_write-Keeps :
      (r : SourceRecord) (next : SourceState) (locator : Option TargetLocator)
      → IsNamed r
      → Keeps (
          source_transition_time env peer r.updated >>= λ at.
          transition env peer r.manifest.handoff_id r.revision next
            (record { at = at; next_retry = none; failure = none; target_locator = locator })
          >>= λ q. pure (record_dto q))
  dated_write-Keeps r next locator n = Frame.dated-Keeps env peer id P frame r.updated _ (λ at.
      Frame.named-Keeps env peer id P frame _ _
        (Frame.transition-Does env peer id P frame r.manifest.handoff_id r.revision next _ n)
        (λ q _. rests _))

  settle_prepared-Keeps :
      (r : SourceRecord) (remote : Status) (s : TargetState)
      → IsNamed r
      → Keeps (settle_prepared env peer r remote s)
  unfolding settle_prepared
  settle_prepared-Keeps r remote prepared n = dated_write-Keeps r remote_prepared none n
  settle_prepared-Keeps r remote received n = retries r _ n
  settle_prepared-Keeps r remote validating n = retries r _ n
  settle_prepared-Keeps r remote waiting_assets n = retries r _ n
  settle_prepared-Keeps r remote rejected n = fails r _ n
  settle_prepared-Keeps r remote launching n = fails r _ n
  settle_prepared-Keeps r remote launch_waiting_assets n = fails r _ n
  settle_prepared-Keeps r remote target_accepted n = fails r _ n
  settle_prepared-Keeps r remote (other_target t) n = fails r _ n

  settle_call_failure-Keeps :
      (r : SourceRecord) (f : Failure × Bool) → IsNamed r → Keeps (settle_call_failure env peer r f)
  unfolding settle_call_failure
  settle_call_failure-Keeps r (f, true) n = retries r f n
  settle_call_failure-Keeps r (f, false) n = fails r f n

  settle_prepare-Keeps :
      (r : SourceRecord) (x : Result CallError Status)
      → IsNamed r
      → Keeps (settle_prepare env peer r x)
  unfolding settle_prepare
  settle_prepare-Keeps r (err e) n = settle_call_failure-Keeps r (source_call_failure e r.updated) n
  settle_prepare-Keeps r (ok remote) n =
      if_cases Keeps (is_same_handoff r remote) (λ _. settle_prepared-Keeps r remote remote.state n)
        (λ _. fails r identity_conflict n)

  attempt_at-Keeps :
      (r : SourceRecord) (gate : Gate) → IsNamed r → Keeps (attempt_at env peer r gate)
  unfolding attempt_at
  attempt_at-Keeps r rest n = rests _
  attempt_at-Keeps r outside n = Frame.raise-Keeps env peer id P frame conflict
  attempt_at-Keeps r proceed n =
      Frame.named-Keeps env peer id P frame _ _
        (Frame.enter-Does env peer id P frame (is_preparing r.state) preparing_remote r n)
        (λ q m.
          Frame.then-Keeps env peer id P frame _ _ (Frame.ask-Keeps env peer id P frame _)
            (λ x. settle_prepare-Keeps q x m))

  pub attempt-Keeps : (force : Bool) → Keeps (attempt env peer id force)
  unfolding attempt
  attempt-Keeps force =
      Frame.named-Keeps env peer id P frame _ _
        (Frame.read-Does env peer id P frame (λ e. not_found))
        (λ r n.
          Frame.then-Keeps env peer id P frame _ _ (prepare_gate-Keeps r force r.state)
            (λ gate. attempt_at-Keeps r gate n))

  launch_gate-Keeps :
      (r : SourceRecord) (force : Bool) (s : SourceState) → Keeps (launch_gate env peer r force s)
  unfolding launch_gate
  launch_gate-Keeps r force remote_prepared = rests _
  launch_gate-Keeps r force launch_retry_wait = early_gate-Keeps r force _
  launch_gate-Keeps r force launching_remote = rests _
  launch_gate-Keeps r force source_accepted = rests _
  launch_gate-Keeps r force source_failed = rests _
  launch_gate-Keeps r force queued = rests _
  launch_gate-Keeps r force preparing_remote = rests _
  launch_gate-Keeps r force source_retry_wait = rests _
  launch_gate-Keeps r force (other_source t) = rests _

  settle_launched-Keeps :
      (r : SourceRecord) (remote : Status) (s : TargetState)
      → IsNamed r
      → Keeps (settle_launched env peer r remote s)
  unfolding settle_launched
  settle_launched-Keeps r remote target_accepted n =
      if_cases Keeps (is_valid_locator env peer r remote.target_locator)
        (λ _. dated_write-Keeps r source_accepted remote.target_locator n)
        (λ _. fails r locator_conflict n)
  settle_launched-Keeps r remote launching n = relaunches r _ n
  settle_launched-Keeps r remote launch_waiting_assets n = relaunches r _ n
  settle_launched-Keeps r remote rejected n = fails r _ n
  settle_launched-Keeps r remote received n = fails r _ n
  settle_launched-Keeps r remote validating n = fails r _ n
  settle_launched-Keeps r remote prepared n = fails r _ n
  settle_launched-Keeps r remote waiting_assets n = fails r _ n
  settle_launched-Keeps r remote (other_target t) n = fails r _ n

  settle_launch_failure-Keeps :
      (r : SourceRecord) (f : Failure × Bool)
      → IsNamed r
      → Keeps (settle_launch_failure env peer r f)
  unfolding settle_launch_failure
  settle_launch_failure-Keeps r (f, true) n = relaunches r f n
  settle_launch_failure-Keeps r (f, false) n = fails r f n

  settle_launch-Keeps :
      (r : SourceRecord) (x : Result CallError Status)
      → IsNamed r
      → Keeps (settle_launch env peer r x)
  unfolding settle_launch
  settle_launch-Keeps r (err e) n =
      settle_launch_failure-Keeps r (source_launch_call_failure e r.updated) n
  settle_launch-Keeps r (ok remote) n =
      if_cases Keeps (is_same_handoff r remote) (λ _. settle_launched-Keeps r remote remote.state n)
        (λ _. fails r identity_conflict n)

  attempt_launch_at-Keeps :
      (r : SourceRecord) (gate : Gate) → IsNamed r → Keeps (attempt_launch_at env peer r gate)
  unfolding attempt_launch_at
  attempt_launch_at-Keeps r rest n = rests _
  attempt_launch_at-Keeps r outside n = Frame.raise-Keeps env peer id P frame conflict
  attempt_launch_at-Keeps r proceed n =
      Frame.named-Keeps env peer id P frame _ _
        (Frame.enter-Does env peer id P frame (is_launching r.state) launching_remote r n)
        (λ q m.
          Frame.then-Keeps env peer id P frame _ _ (Frame.ask-Keeps env peer id P frame _)
            (λ x. settle_launch-Keeps q x m))

  pub attempt_launch-Keeps : (force : Bool) → Keeps (attempt_launch env peer id force)
  unfolding attempt_launch
  attempt_launch-Keeps force =
      Frame.named-Keeps env peer id P frame _ _
        (Frame.read-Does env peer id P frame (λ e. not_found))
        (λ r n.
          Frame.then-Keeps env peer id P frame _ _ (launch_gate-Keeps r force r.state)
            (λ gate. attempt_launch_at-Keeps r gate n))
