-- ===== src/Handoff/Outbox/Calls.antt =====
-- The outbox as a client of the store: what it writes is a sequence of store calls.
use arcmux.Prelude.{ℤ, ◌≡◌, refl, sym, ap, ◌∙◌, Bool, true, List, [], ◌∷◌, ◌++◌, All, All-append}
use arcmux.Prelude.Text.{Text}
use arcmux.Handoff.Manifest.{Env}
use arcmux.Handoff.Record.{
  SourceState, SourceRecord, RetirementMode, queued, preparing_remote, remote_prepared,
  launching_remote, source_accepted, source_retry_wait, launch_retry_wait, source_failed,
  other_source,
}
use arcmux.Handoff.Files.{Files}
use arcmux.Handoff.Source.History.{Call, call_id, answer, files_after, run_calls}
use arcmux.Handoff.Action.{Action, State, Does, conflict, raise}
use arcmux.Handoff.Outbox.{Peer, Dto}
use arcmux.Handoff.Outbox.Prepare.{attempt}
use arcmux.Handoff.Outbox.Retire.{verify, retire, get_error}
use arcmux.Handoff.Outbox.Passes.{retry, retry_at, launch, launch_from}
use arcmux.Handoff.Outbox.Keeps.{IsFrame, named-Keeps, read-Does, raise-Keeps}
use arcmux.Handoff.Outbox.Phases.{attempt-Keeps, attempt_launch-Keeps}
use arcmux.Handoff.Outbox.Retirements.{retire-Keeps}
use arcmux.Handoff.Outbox.Verifications.{verify-Keeps}

-- The operator's calls of the outbox that may write
pub data Request : Type 0 where
  attempts : Bool → Request
  launches retries verifies : Request
  retires : RetirementMode → ℤ → Request

-- Files that calls of the store for one handoff lead to
pub record IsRun (env : Env) (id : Text) (f g : Files SourceRecord) : Type 0 where
  pub calls : List Call
  pub own : All (λ c. call_id env c ≡ id) calls
  pub result : g ≡ run_calls env calls f

run_calls-append :
    (env : Env) (cs ds : List Call) (f : Files SourceRecord)
    → run_calls env (cs ++ ds) f ≡ run_calls env ds (run_calls env cs f)
unfolding run_calls
run_calls-append env [] ds f = refl
run_calls-append env (c ∷ cs) ds f = run_calls-append env cs ds (files_after env (answer env c f) f)

IsRun-IsFrame : (env : Env) (id : Text) → IsFrame env id (IsRun env id)
unfolding run_calls
IsRun-IsFrame env id = record {
  same = λ f. record { calls = []; own = tt; result = refl };
  then_also = λ f g h p q. record {
    calls = p.calls ++ q.calls;
    own = All-append (λ c. call_id env c ≡ id) p.calls q.calls p.own q.own;
    result =
        q.result
        ∙ ap (run_calls env q.calls) p.result
        ∙ sym (run_calls-append env p.calls q.calls f);
  };
  step = λ c f e. record { calls = c ∷ []; own = (e, tt); result = refl };
}

module _ {W : Type 0} (env : Env) (peer : Peer W) where
  unfoldable pub perform : Text → Request → Action W Dto
  perform id (attempts force) = attempt env peer id force
  perform id launches = launch env peer id
  perform id retries = retry env peer id
  perform id verifies = verify env peer id
  perform id (retires mode timeout) = retire env peer id mode timeout

  module _ (id : Text) (P : Files SourceRecord → Files SourceRecord → Type 0)
      (frame : IsFrame env id P) where
    refuses : Does {W = W} {A = Dto} P (λ a. Unit) (raise conflict)
    refuses = raise-Keeps env peer id P frame conflict

    retry_at-Keeps : (s : SourceState) → Does P (λ a. Unit) (retry_at env peer id s)
    unfolding retry_at
    retry_at-Keeps source_retry_wait = attempt-Keeps env peer id P frame true
    retry_at-Keeps launch_retry_wait = attempt_launch-Keeps env peer id P frame true
    retry_at-Keeps queued = refuses
    retry_at-Keeps preparing_remote = refuses
    retry_at-Keeps remote_prepared = refuses
    retry_at-Keeps launching_remote = refuses
    retry_at-Keeps source_accepted = refuses
    retry_at-Keeps source_failed = refuses
    retry_at-Keeps (other_source t) = refuses

    launch_from-Keeps : (s : SourceState) → Does P (λ a. Unit) (launch_from env peer id s)
    unfolding launch_from
    launch_from-Keeps remote_prepared = attempt_launch-Keeps env peer id P frame true
    launch_from-Keeps launching_remote = attempt_launch-Keeps env peer id P frame true
    launch_from-Keeps launch_retry_wait = attempt_launch-Keeps env peer id P frame true
    launch_from-Keeps source_accepted = attempt_launch-Keeps env peer id P frame true
    launch_from-Keeps queued = refuses
    launch_from-Keeps preparing_remote = refuses
    launch_from-Keeps source_retry_wait = refuses
    launch_from-Keeps source_failed = refuses
    launch_from-Keeps (other_source t) = refuses

    perform-Keeps : (q : Request) → Does P (λ a. Unit) (perform id q)
    unfolding perform retry launch
    perform-Keeps (attempts force) = attempt-Keeps env peer id P frame force
    perform-Keeps verifies = verify-Keeps env peer id P frame
    perform-Keeps (retires mode timeout) = retire-Keeps env peer id P frame mode timeout
    perform-Keeps retries =
        named-Keeps env peer id P frame _ _ (read-Does env peer id P frame get_error)
          (λ r n. retry_at-Keeps r.state)
    perform-Keeps launches =
        named-Keeps env peer id P frame _ _ (read-Does env peer id P frame get_error)
          (λ r n. launch_from-Keeps r.state)

  -- Whatever the target, the sessions and the clock do, an attempt, launch, retry, verification or
  -- retirement of the outbox changes the source files exactly as some sequence of store calls that
  -- are all for its own handoff.
  pub perform-IsRun :
      (id : Text) (q : Request) (s : State W) → IsRun env id s.files ((perform id q s).1.files)
  perform-IsRun id q s = (perform-Keeps id (IsRun env id) (IsRun-IsFrame env id) q).changes s
