-- ===== src/Handoff/Outbox/Retirements.antt =====
-- Retirement changes the files only by calls of the store for its handoff.
use arcmux.Prelude.{Time, ℤ, ◌≡◌, ◌∙◌, not, ◌&&◌, ◌||◌, Option, none, some, if_cases}
use arcmux.Prelude.Text.{Text, text_eq}
use arcmux.Prelude.Results.{Result, ok, err}
use arcmux.Handoff.Manifest.{Env}
use arcmux.Handoff.Record.{
  SourceRecord, SourceRetirement, RetirementMode, TurnObservation, is_source_accepted,
}
use arcmux.Handoff.Files.{Files}
use arcmux.Handoff.Store.{Error}
use arcmux.Handoff.Source.{Written}
use arcmux.Handoff.Source.Proofs.{
  request_source_retirement, complete_source_retirement, is_pending, is_retired, is_some, mode_eq,
  eq_ℤ, seconds_of,
}
use arcmux.Handoff.Source.Methods.{retirement-Outcome}
use arcmux.Handoff.Source.History as History
use arcmux.Handoff.Source.History.{Call, call_id, answer, files_after}
use arcmux.Handoff.Action.{
  Action, State, Kind, Does, Does-any, Does-pure, Does-raise, Does-bind, pure, raise, conflict,
}
use arcmux.Handoff.Outbox.{Peer, Dto, Detail, record_dto}
use arcmux.Handoff.Outbox.Steps.{source_transition_time}
use arcmux.Handoff.Outbox.Retire.{
  complete_or, complete, confirm_closed, close_and_confirm, retire_found, retire_asked,
  retire_pending, lookup_exact_source, get_error, is_exited, is_after_turn_end,
  source_after_turn_retirement_ready, request_retirement, request_for, request_or_keep,
  retire_requested, retire_accepted, retire, turn_observation,
}
use arcmux.Handoff.Outbox.Keeps as Frame
use arcmux.Handoff.Outbox.Keeps.{IsFrame, Outcome-named}

module _ {W : Type 0} (env : Env) (peer : Peer W) (id : Text)
    (P : Files SourceRecord → Files SourceRecord → Type 0) (frame : IsFrame env id P) where
  abbrev Keeps : {A : Type 0} → Action W A → Type 0
  Keeps m = Does P (λ a. Unit) m

  abbrev IsNamed : SourceRecord → Type 0
  IsNamed r = r.manifest.handoff_id ≡ id

  rests : {A : Type 0} (a : A) → Keeps (pure a)
  rests a = Frame.pure-Keeps env peer id P frame a

  refuses : {A : Type 0} → Keeps {A = A} (raise conflict)
  refuses = Frame.raise-Keeps env peer id P frame conflict

  -- A store call whose answer and error both end in a view
  abbrev pub viewed : Dto → State W → Result Error Written → Result Kind Dto × State W
  viewed d s (ok (q, replay, files)) = (ok (record_dto q), record s { files = files })
  viewed d s (err e) = (ok d, s)

  pub viewed-changes :
      (d : Dto) (s : State W) (x : Result Error Written)
      → P s.files (files_after env x s.files)
      → P s.files ((viewed d s x).1.files)
  viewed-changes d s (ok (q, replay, files)) p = p
  viewed-changes d s (err e) p = p

  complete_or-Keeps : (r : SourceRecord) (at : Time) → IsNamed r → Keeps (complete_or env peer r at)
  unfolding complete_or answer call_id
  complete_or-Keeps r at n = Does-any P (complete_or env peer r at) (λ s.
      let now = peer.store_now s.world in
      viewed-changes (record_dto r) s
        (complete_source_retirement env now r.manifest.handoff_id r.revision at s.files)
        (frame.step (History.complete now r.manifest.handoff_id r.revision at) s.files n))

  complete-Keeps : (r : SourceRecord) → IsNamed r → Keeps (complete env peer r)
  unfolding complete
  complete-Keeps r n =
      Frame.dated-Keeps env peer id P frame r.updated _ (λ at. complete_or-Keeps r at n)

  lookup-Keeps : (r : SourceRecord) → Keeps (lookup_exact_source env peer r)
  unfolding lookup_exact_source
  lookup-Keeps r =
      Frame.then-Keeps env peer id P frame _ _ (Frame.ask-Keeps env peer id P frame _)
        (λ d. rests _)

  confirm-Keeps :
      (r : SourceRecord) (d : Option Detail) → IsNamed r → Keeps (confirm_closed env peer r d)
  unfolding confirm_closed
  confirm-Keeps r none n = rests _
  confirm-Keeps r (some d) n =
      if_cases Keeps (is_exited d) (λ _. complete-Keeps r n) (λ _. rests (record_dto r))

  close-Keeps :
      (r : SourceRecord) (t : SourceRetirement) → IsNamed r → Keeps (close_and_confirm env peer r t)
  unfolding close_and_confirm
  close-Keeps r t n =
      Frame.then-Keeps env peer id P frame _ _ (Frame.ask-Keeps env peer id P frame _) (λ closed.
        if_cases Keeps (not closed) (λ _. rests (record_dto r))
          (λ _.
            Frame.then-Keeps env peer id P frame _ _ (lookup-Keeps r) (λ d. confirm-Keeps r d n)))

  found-Keeps :
      (r : SourceRecord) (t : SourceRetirement) (d : Option Detail)
      → IsNamed r
      → Keeps (retire_found env peer r t d)
  unfolding retire_found
  found-Keeps r t none n = rests _
  found-Keeps r t (some d) n =
      if_cases Keeps (is_exited d) (λ _. complete-Keeps r n)
        (λ _.
          if_cases Keeps (is_after_turn_end t.mode && not (source_after_turn_retirement_ready t d))
            (λ _. rests (record_dto r)) (λ _. close-Keeps r t n))

  asked-Keeps :
      (r : SourceRecord) (o : Option SourceRetirement)
      → IsNamed r
      → Keeps (retire_asked env peer r o)
  unfolding retire_asked
  asked-Keeps r none n = rests _
  asked-Keeps r (some t) n =
      if_cases Keeps (not (is_pending t.state)) (λ _. rests (record_dto r))
        (λ _. Frame.then-Keeps env peer id P frame _ _ (lookup-Keeps r) (λ d. found-Keeps r t d n))

  pub retire_pending-Keeps : (r : SourceRecord) → IsNamed r → Keeps (retire_pending env peer r)
  unfolding retire_pending
  retire_pending-Keeps r n = asked-Keeps r r.retirement n

  request_retirement-Does :
      (r : SourceRecord) (mode : RetirementMode) (timeout : ℤ) (baseline : TurnObservation)
      (at : Time)
      → IsNamed r
      → Does P IsNamed (request_retirement env peer r mode timeout baseline at)
  unfolding request_retirement answer call_id
  request_retirement-Does r mode timeout baseline at n =
      Frame.Does-written env peer id P frame conflict
        (λ s.
          request_source_retirement env (peer.store_now s.world) r.manifest.handoff_id r.revision
            mode timeout baseline at s.files)
        (λ s.
          frame.step
            (History.request (peer.store_now s.world) r.manifest.handoff_id r.revision mode timeout
              baseline at)
            s.files n)
        (λ s w h.
          Outcome-named env r.manifest.handoff_id s.files w (
            retirement-Outcome env (peer.store_now s.world) r.manifest.handoff_id r.revision mode
              timeout baseline at s.files h)
          ∙ n)

  request_for-Does :
      (r : SourceRecord) (mode : RetirementMode) (timeout : ℤ) (d : Option Detail)
      → IsNamed r
      → Does P IsNamed (request_for env peer r mode timeout d)
  unfolding request_for
  request_for-Does r mode timeout none n = Does-raise P frame.same frame.then_also IsNamed conflict
  request_for-Does r mode timeout (some d) n =
      Does-bind P frame.same frame.then_also (λ a. Unit) IsNamed
        (source_transition_time env peer r.updated) _
        (Frame.time-Keeps env peer id P frame r.updated)
        (λ at _. request_retirement-Does r mode timeout (turn_observation d) at n)

  request_or_keep-Does :
      (r : SourceRecord) (mode : RetirementMode) (timeout : ℤ) (o : Option SourceRetirement)
      → IsNamed r
      → Does P IsNamed (request_or_keep env peer r mode timeout o)
  unfolding request_or_keep
  request_or_keep-Does r mode timeout none n =
      Does-bind P frame.same frame.then_also (λ a. Unit) IsNamed (lookup_exact_source env peer r) _
        (lookup-Keeps r) (λ d _. request_for-Does r mode timeout d n)
  request_or_keep-Does r mode timeout (some t) n =
      if_cases (Does P IsNamed) (mode_eq t.mode mode && eq_ℤ t.timeout_seconds (seconds_of timeout))
        (λ _. Does-pure P frame.same frame.then_also IsNamed r n)
        (λ _. Does-raise P frame.same frame.then_also IsNamed conflict)

  requested-Keeps :
      (r : SourceRecord) (mode : RetirementMode) (o : Option SourceRetirement)
      → IsNamed r
      → Keeps (retire_requested env peer r mode o)
  unfolding retire_requested
  requested-Keeps r mode none n = rests _
  requested-Keeps r mode (some t) n =
      if_cases Keeps (is_retired t.state || is_after_turn_end mode) (λ _. rests (record_dto r))
        (λ _. retire_pending-Keeps r n)

  accepted-Keeps :
      (r : SourceRecord) (mode : RetirementMode) (timeout : ℤ)
      → IsNamed r
      → Keeps (retire_accepted env peer r mode timeout)
  unfolding retire_accepted
  accepted-Keeps r mode timeout n =
      if_cases Keeps (not (is_source_accepted r.state && is_some r.context_loaded)) (λ _. refuses)
        (λ _.
          if_cases Keeps (not (text_eq r.manifest.source.device_id peer.device_id)) (λ _. refuses)
            (λ _.
              Frame.named-Keeps env peer id P frame _ _
                (request_or_keep-Does r mode timeout r.retirement n)
                (λ q m. requested-Keeps q mode q.retirement m)))

  pub retire-Keeps : (mode : RetirementMode) (timeout : ℤ) → Keeps (retire env peer id mode timeout)
  unfolding retire
  retire-Keeps mode timeout =
      Frame.named-Keeps env peer id P frame _ _ (Frame.read-Does env peer id P frame get_error)
        (λ r n. accepted-Keeps r mode timeout n)
