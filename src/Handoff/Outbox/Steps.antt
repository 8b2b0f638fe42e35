-- ===== src/Handoff/Outbox/Steps.antt =====
-- The steps that the outbox's methods share (internal/daemon/handoff_outbox.go).
use arcmux.Prelude.{
  Time, ℕ, ◌+◌, ◌*◌, Bool, true, false, Option, none, some, if◌then◌else◌, ltb, after, second,
}
use arcmux.Prelude.Text.{Text}
use arcmux.Prelude.Results.{Result, ok, err}
use arcmux.Handoff.Manifest.{Env}
use arcmux.Handoff.Record.{
  SourceState, Failure, FailureCode, SourceRecord, Transition, source_retry_wait, launch_retry_wait,
  source_failed,
}
use arcmux.Handoff.Record.Validate.{known_failure_code}
use arcmux.Handoff.Store.{Error}
use arcmux.Handoff.Source.{Written, get_source, transition_source}
use arcmux.Handoff.Action.{Action, State, Kind, conflict, pure, ask, ◌>>=◌}
use arcmux.Handoff.Outbox.{Peer, Dto, FailureDto, record_dto}

-- sourceHandoffRetryDelay
abbrev pub source_handoff_retry_delay : ℕ
source_handoff_retry_delay = 15 * second

-- The code of a failure that the target reports
unfoldable pub reported_code : FailureCode → Option FailureDto → FailureCode
reported_code code none = code
reported_code code (some f) = if known_failure_code f.code then f.code else code

abbrev pub not_before : Time → Time → Time
not_before limit at = if ltb at limit then limit else at

module _ {W : Type 0} (env : Env) (peer : Peer W) where
  -- GetSource, where a failed read is a given kind of error
  abbrev pub read_answer :
      (Error → Kind) → State W → Result Error SourceRecord → Result Kind SourceRecord × State W
  read_answer kind s (ok r) = (ok r, s)
  read_answer kind s (err e) = (err (kind e), s)

  unfoldable pub read_record : (Error → Kind) → Text → Action W SourceRecord
  read_record kind id s = read_answer kind s (get_source env id s.files)

  -- A write of the store, where every error is a given kind
  abbrev pub written : Kind → State W → Result Error Written → Result Kind SourceRecord × State W
  written kind s (ok (q, replay, files)) = (ok q, record s { files = files })
  written kind s (err e) = (err kind, s)

  unfoldable pub transition : Text → ℕ → SourceState → Transition → Action W SourceRecord
  transition id revision next t s =
      written conflict s (transition_source env (peer.store_now s.world) id revision next t s.files)

  -- sourceTransitionTime
  unfoldable pub source_transition_time : Time → Action W Time
  source_transition_time limit = do at ← ask peer.now; pure (not_before limit at)

  -- The call with the times filled in, and the record it leaves
  unfoldable pub transition_to :
      SourceRecord → SourceState → (Time → Option Time) → (Time → Option Failure) → Action W Dto
  unfolding source_transition_time transition
  transition_to r next retry failure = do
    at ← source_transition_time r.updated
    q ←
        transition r.manifest.handoff_id r.revision next
          (record { at = at; next_retry = retry at; failure = failure at; target_locator = none })
    pure (record_dto q)

  -- transitionRetry
  unfoldable pub transition_retry : SourceRecord → Failure → Action W Dto
  unfolding transition_to
  transition_retry r f =
      transition_to r source_retry_wait (λ at. some (at + source_handoff_retry_delay))
        (λ at. some (record f { at = at }))

  -- transitionLaunchRetry
  unfoldable pub transition_launch_retry : SourceRecord → Failure → Action W Dto
  unfolding transition_to
  transition_launch_retry r f =
      transition_to r launch_retry_wait (λ at. some (at + source_handoff_retry_delay))
        (λ at. some (record f { at = at; retryable = true }))

  -- transitionFailed
  unfoldable pub transition_failed : SourceRecord → Failure → Action W Dto
  unfolding transition_to
  transition_failed r f =
      transition_to r source_failed (λ at. none)
        (λ at. some (record f { at = at; retryable = false }))

  -- The step into a phase, which a record that is in it has behind it
  unfoldable pub enter : Bool → SourceState → SourceRecord → Action W SourceRecord
  unfolding source_transition_time transition
  enter true next r = pure r
  enter false next r = do
    at ← source_transition_time r.updated
    transition r.manifest.handoff_id r.revision next
        (record { at = at; next_retry = none; failure = none; target_locator = none })

  -- A retry that is not forced and not due
  unfoldable pub is_early : Bool → Option Time → Action W Bool
  is_early true retry = pure false
  is_early false none = pure false
  is_early false (some t) = do at ← ask peer.now; pure (after t at)
