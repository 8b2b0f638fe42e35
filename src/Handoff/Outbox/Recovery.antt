-- ===== src/Handoff/Outbox/Recovery.antt =====
-- The recovery pass leaves a handoff alone that waits for its launch.
use arcmux.Prelude.{
  Time, ◌≡◌, refl, sym, ◌∙◌, subst, Bool, true, false, Option, none, some, List, [], ◌∷◌, All,
}
use arcmux.Prelude.Text.{Text, text_eq}
use arcmux.Prelude.Results.{Result, ok, err}
use arcmux.Handoff.Manifest.{Env}
use arcmux.Handoff.Record.{
  SourceState, SourceRecord, queued, preparing_remote, remote_prepared, launching_remote,
  source_accepted, source_retry_wait, launch_retry_wait, source_failed, other_source,
}
use arcmux.Handoff.Files.{Files, read, read-write-other}
use arcmux.Handoff.Store.{Error}
use arcmux.Handoff.Source.{Written}
use arcmux.Handoff.Source.Lists.{runnable_source, is_runnable}
use arcmux.Handoff.Source.Moves.{Outcome, replayed, created, moved}
use arcmux.Handoff.Source.History.{call_id, answer, files_after, answer-Outcome}
use arcmux.Handoff.Action.{Action, State, Kind, Does, Does-any, Does-bind, ask, pure}
use arcmux.Handoff.Action as Act
use arcmux.Handoff.Outbox.{Peer, Dto}
use arcmux.Handoff.Outbox.Passes.{
  resume, pass, reconcile_from, reconcile, attempted, kept_error, first_error,
}
use arcmux.Handoff.Outbox.Keeps.{IsFrame, named-Keeps, read-Does}
use arcmux.Handoff.Outbox.Phases.{attempt-Keeps, attempt_launch-Keeps}
use arcmux.Handoff.Outbox.Retirements.{retire_pending-Keeps}
use arcmux.Handoff.Outbox.Candidates.{runnable_source-Apart}

-- What is read for a handoff is the same.
abbrev Leaves : Text → Files SourceRecord → Files SourceRecord → Type 0
Leaves other f g = read other g ≡ read other f

outcome-Leaves :
    (env : Env) (id other : Text) (f : Files SourceRecord) (w : Written)
    → text_eq other id ≡ false
    → Outcome env id f w
    → Leaves other f (w.2)
outcome-Leaves env id other f w apart (replayed q found v) = refl
outcome-Leaves env id other f w apart (created q fresh v one) = read-write-other id other q f apart
outcome-Leaves env id other f w apart (moved r q found v valid m) =
    read-write-other id other q f apart

after-Leaves :
    (env : Env) (id other : Text) (f : Files SourceRecord) (x : Result Error Written)
    → text_eq other id ≡ false
    → ((w : Written) → x ≡ ok w → Outcome env id f w)
    → Leaves other f (files_after env x f)
after-Leaves env id other f (ok (q, replay, g)) apart h =
    outcome-Leaves env id other f (q, replay, g) apart (h (q, replay, g) refl)
after-Leaves env id other f (err e) apart h = refl

Leaves-IsFrame :
    (env : Env) (id other : Text) → text_eq other id ≡ false → IsFrame env id (Leaves other)
Leaves-IsFrame env id other apart = record {
  same = λ f. refl;
  then_also = λ f g h p q. q ∙ p;
  step = λ c f e.
      after-Leaves env (call_id env c) other f (answer env c f)
        (subst (λ i. text_eq other i ≡ false) (sym e) apart) (λ w h. answer-Outcome env c f h);
}

either_way {ℓ} :
    {A : Type 0} (P : A → Type ℓ) (b : Bool) {x y : A}
    → P x
    → P y
    → P (elim b [ false ↦ x | true ↦ y ])
either_way P false p q = p
either_way P true p q = q

module _ {W : Type 0} (env : Env) (peer : Peer W) where
  resume-Leaves :
      (id other : Text) (s : SourceState)
      → text_eq other id ≡ false
      → Does (Leaves other) (λ a. Unit) (resume env peer id s)
  unfolding resume
  resume-Leaves id other source_accepted apart =
      let frame = Leaves-IsFrame env id other apart in
      named-Keeps env peer id (Leaves other) frame _ _
        (read-Does env peer id (Leaves other) frame _)
        (λ r n. retire_pending-Keeps env peer id (Leaves other) frame r n)
  resume-Leaves id other launching_remote apart =
      attempt_launch-Keeps env peer id (Leaves other) (Leaves-IsFrame env id other apart) false
  resume-Leaves id other launch_retry_wait apart =
      attempt_launch-Keeps env peer id (Leaves other) (Leaves-IsFrame env id other apart) false
  resume-Leaves id other queued apart =
      attempt-Keeps env peer id (Leaves other) (Leaves-IsFrame env id other apart) false
  resume-Leaves id other preparing_remote apart =
      attempt-Keeps env peer id (Leaves other) (Leaves-IsFrame env id other apart) false
  resume-Leaves id other source_retry_wait apart =
      attempt-Keeps env peer id (Leaves other) (Leaves-IsFrame env id other apart) false
  resume-Leaves id other remote_prepared apart =
      attempt-Keeps env peer id (Leaves other) (Leaves-IsFrame env id other apart) false
  resume-Leaves id other source_failed apart =
      attempt-Keeps env peer id (Leaves other) (Leaves-IsFrame env id other apart) false
  resume-Leaves id other (other_source t) apart =
      attempt-Keeps env peer id (Leaves other) (Leaves-IsFrame env id other apart) false

  kept-changes :
      (other : Text) (f : Files SourceRecord) (x : Result Kind Dto × State W)
      → Leaves other f (x.1.files)
      → Leaves other f ((kept_error env peer x).1.files)
  kept-changes other f (ok d, s) h = h
  kept-changes other f (err k, s) h = h

  attempted-Leaves :
      (other : Text) (m : Action W Dto)
      → Does (Leaves other) (λ a. Unit) m
      → Does (Leaves other) (λ a. Unit) (attempted env peer m)
  unfolding attempted
  attempted-Leaves other m d =
      Does-any (Leaves other) (attempted env peer m)
        (λ s. kept-changes other s.files (m s) (d.changes s))

  bind-Leaves :
      {A B : Type 0} (other : Text) (m : Action W A) (f : A → Action W B)
      → Does (Leaves other) (λ a. Unit) m
      → ((a : A) → Does (Leaves other) (λ a. Unit) (f a))
      → Does (Leaves other) (λ a. Unit) (Act.◌>>=◌ m f)
  bind-Leaves other m f dm df =
      Does-bind (Leaves other) (λ g. refl) (λ g h i p q. q ∙ p) (λ a. Unit) (λ a. Unit) m f dm
        (λ a _. df a)

  pure-Leaves :
      {A : Type 0} (other : Text) (a : A) → Does {W = W} (Leaves other) (λ a. Unit) (pure a)
  pure-Leaves other a = Does-any (Leaves other) (pure a) (λ s. refl)

  reconcile_from-Leaves :
      (other : Text) (at : Time) (first : Option Kind) (cs : List SourceRecord)
      → All (λ c. text_eq other c.manifest.handoff_id ≡ false) cs
      → Does (Leaves other) (λ a. Unit) (reconcile_from env peer at first cs)
  unfolding reconcile_from
  reconcile_from-Leaves other at first [] all =
      bind-Leaves other (ask peer.is_done) _ (Does-any (Leaves other) _ (λ s. refl))
        (λ done. pure-Leaves other _)
  reconcile_from-Leaves other at first (c ∷ rest) all =
      bind-Leaves other (ask peer.is_done) _ (Does-any (Leaves other) _ (λ s. refl)) (λ done.
        either_way (Does (Leaves other) (λ a. Unit)) done
          (either_way (Does (Leaves other) (λ a. Unit)) (is_runnable at c c.state)
            (reconcile_from-Leaves other at first rest all.1)
            (bind-Leaves other (attempted env peer (resume env peer c.manifest.handoff_id c.state))
              _
              (attempted-Leaves other (resume env peer c.manifest.handoff_id c.state)
                (resume-Leaves c.manifest.handoff_id other c.state all.0))
              (λ failed. reconcile_from-Leaves other at (first_error first failed) rest all.1)))
          (pure-Leaves other _))

  pass-Leaves :
      (at : Time) (id : Text) (x : Result Error (List SourceRecord)) (s : State W)
      → ((cs : List SourceRecord)
          → x ≡ ok cs
          → All (λ c. text_eq id c.manifest.handoff_id ≡ false) cs)
      → Leaves id s.files ((pass env peer at x s).1.files)
  unfolding pass
  pass-Leaves at id (ok cs) s h = (reconcile_from-Leaves id at none cs (h cs refl)).changes s
  pass-Leaves at id (err e) s h = refl

  -- A recovery pass leaves the record of a handoff that is prepared on the target as it was,
  -- whatever the other records, the target, the sessions and the clock do: only an explicit launch
  -- starts the continuation.
  pub reconcile-remote_prepared :
      (at : Time) (id : Text) (r : SourceRecord) (s : State W)
      → read id s.files ≡ some r
      → r.state ≡ remote_prepared
      → read id ((reconcile env peer at s).1.files) ≡ some r
  unfolding reconcile
  reconcile-remote_prepared at id r s e prepared =
      pass-Leaves at id (runnable_source env at s.files) s
        (λ cs h. runnable_source-Apart env at s.files id r e prepared h)
      ∙ e
