-- ===== src/Handoff/Outbox/Delays.antt =====
-- When a handoff that has to wait is due again.
use arcmux.Prelude.{
  Time, ℕ, ◌+◌, ◌≡◌, refl, sym, ap, ◌∙◌, subst, arith, Bool, false, Option, some, leb, ◌==◌,
  is_zero,
}
use arcmux.Prelude.Text.{Text}
use arcmux.Prelude.Results.{Result, ok, err, >>=-ok, guard-ok}
use arcmux.Handoff.Manifest.{Env}
use arcmux.Handoff.Record.{
  SourceState, SourceRecord, Failure, Transition, source_retry_wait, valid_source_state,
  legal_source_transition, is_source_accepted, is_source_retry,
}
use arcmux.Handoff.Files.{Files, read, read-write-same}
use arcmux.Handoff.Store.{
  Error, refused, cas_conflict, illegal_transition, time_or, apply_locator, apply_retry,
}
use arcmux.Handoff.Source.{Written, get_source, transition_source}
use arcmux.Handoff.Source.Lists.{is_runnable, is_due}
use arcmux.Handoff.Source.Moves.{commit_source-ok}
use arcmux.Handoff.Action as Act
use arcmux.Handoff.Action.{State, Kind, conflict, pure, go_on}
use arcmux.Handoff.Outbox.{Peer, Dto, record_dto}
use arcmux.Handoff.Outbox.Steps.{
  written, transition, transition_to, transition_retry, source_transition_time,
  source_handoff_retry_delay, not_before,
}

-- What a transition leaves of the state, the retry and the time
record IsMade (id : Text) (next : SourceState) (retry : Option Time) (at : Time) (w : Written)
    : Type 0 where
  state : (w.0).state ≡ next
  next_retry : (w.0).next_retry ≡ retry
  updated : (w.0).updated ≡ at
  found : read id (w.2) ≡ some (w.0)

set_time :
    (limit at now : Time)
    → is_zero limit ≡ false
    → time_or (not_before limit at) now ≡ not_before limit at
unfolding time_or
set_time limit at now h = ground arith

waiting_until :
    (at : Time) (q : SourceRecord) (t : Time)
    → q.state ≡ source_retry_wait
    → q.next_retry ≡ some (t + source_handoff_retry_delay)
    → q.updated ≡ t
    → is_runnable at q q.state ≡ leb (q.updated + source_handoff_retry_delay) at
unfolding is_runnable is_due
waiting_until at q t e n u = rw (e, n, u)

module _ (env : Env) where
  transition_source-IsMade :
      (now : Time) (id : Text) (expected : ℕ) (next : SourceState) (t : Transition)
      (files : Files SourceRecord) {w : Written}
      → transition_source env now id expected next t files ≡ ok w
      → IsMade id next (apply_retry (is_source_retry next) t.next_retry) (time_or t.at now) w
  unfolding transition_source
  transition_source-IsMade now id expected next t files h =
      let (valid, h1) = guard-ok (valid_source_state next) refused _ h in
      let (r, g, h2) = >>=-ok (get_source env id files) _ h1 in
      let (same, h3) = guard-ok (r.revision == expected) cas_conflict _ h2 in
      let (legal, h4) = guard-ok (legal_source_transition r.state next) illegal_transition _ h3 in
      let (late, h5) = guard-ok (leb r.updated (time_or t.at now)) refused _ h4 in
      let (l, k, h6) =
        >>=-ok (apply_locator (is_source_accepted next) t.target_locator r.target_locator) _ h5 in
      let (e, v) = commit_source-ok env id _ files h6 in
      subst (IsMade id next (apply_retry (is_source_retry next) t.next_retry) (time_or t.at now))
        (sym e)
        (record {
          state = refl;
          next_retry = refl;
          updated = refl;
          found = read-write-same id _ files;
        })

module _ {W : Type 0} (env : Env) (peer : Peer W) where
  written_ok :
      (k : Kind) (s : State W) (x : Result Error Written) {d : Dto} {s2 : State W}
      → go_on ((written env peer k s x).0) (λ q. pure (record_dto q)) ((written env peer k s x).1)
        ≡ (ok d, s2)
      → (q : SourceRecord) × (replay : Bool) × (x ≡ ok (q, replay, s2.files))
  written_ok k s (ok (q, replay, files)) h = (q, replay, ap (λ y. ok (q, replay, y.1.files)) h)
  written_ok k s (err e) h = cc (ap (λ y. y.0) h)

  -- A handoff that the outbox puts off, from a record whose time is set, is read back as waiting for
  -- its retry, and the recovery lists it as runnable from exactly 15 seconds after its update on.
  pub transition_retry-delay :
      (r : SourceRecord) (f : Failure) (s done : State W) (d : Dto) (at : Time)
      → is_zero r.updated ≡ false
      → transition_retry env peer r f s ≡ (ok d, done)
      → (q : SourceRecord) × (read r.manifest.handoff_id done.files ≡ some q)
        × (q.state ≡ source_retry_wait)
        × (is_runnable at q q.state ≡ leb (q.updated + source_handoff_retry_delay) at)
  unfolding transition_retry transition_to transition source_transition_time Act.◌>>=◌ apply_retry
      is_source_retry
  transition_retry-delay r f s done d at set h =
      let (q, replay, e) = written_ok conflict _ _ h in
      let m = transition_source-IsMade env _ _ _ _ _ _ e in
      let time = set_time r.updated ((peer.now s.world).0) _ set in
      (q, m.found, m.state, waiting_until at q _ m.state m.next_retry (m.updated ∙ time))
