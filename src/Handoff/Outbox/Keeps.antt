-- ===== src/Handoff/Outbox/Keeps.antt =====
-- The outbox changes the files of a handoff only by calls of the store for that handoff.
use arcmux.Prelude.{Time, ℕ, ◌≡◌, refl, sym, ap, ◌∙◌, Bool, true, false, Option, none, some}
use arcmux.Prelude.Text.{Text}
use arcmux.Prelude.Results.{Result, ok, err}
use arcmux.Handoff.Manifest.{Env}
use arcmux.Handoff.Record.{SourceState, Failure, SourceRecord, Transition}
use arcmux.Handoff.Files.{Files}
use arcmux.Handoff.Store.{Error}
use arcmux.Handoff.Source.{Written, get_source, transition_source}
use arcmux.Handoff.Source.Moves.{Outcome, replayed, created, moved, get_source-IsSourceRecord}
use arcmux.Handoff.Source.Methods.{transition-Outcome}
use arcmux.Handoff.Source.History as History
use arcmux.Handoff.Source.History.{Call, call_id, answer, files_after}
use arcmux.Handoff.Action.{
  Action, State, Kind, Answers, Does, Does-pure, Does-raise, Does-ask, Does-bind, pure, raise, ask,
  ◌>>=◌, conflict,
}
use arcmux.Handoff.Outbox.{Peer}
use arcmux.Handoff.Outbox.Steps.{
  read_record, read_answer, written, transition, source_transition_time, transition_to,
  transition_retry, transition_launch_retry, transition_failed, enter, is_early,
}

pub Outcome-named :
    (env : Env) (id : Text) (files : Files SourceRecord) (w : Written)
    → Outcome env id files w
    → (w.0).manifest.handoff_id ≡ id
Outcome-named env id files w (replayed q found v) = sym v.named
Outcome-named env id files w (created q fresh v one) = sym v.named
Outcome-named env id files w (moved r q found v valid m) =
    ap (λ x. x.handoff_id) m.manifest ∙ sym v.named

-- A relation on files that the calls for one handoff are in
pub record IsFrame (env : Env) (id : Text) (P : Files SourceRecord → Files SourceRecord → Type 0)
    : Type 0 where
  pub same : (f : Files SourceRecord) → P f f
  pub then_also : (f g h : Files SourceRecord) → P f g → P g h → P f h
  pub step :
      (c : Call) (f : Files SourceRecord)
      → call_id env c ≡ id
      → P f (files_after env (answer env c f) f)

module _ {W : Type 0} (env : Env) (peer : Peer W) (id : Text)
    (P : Files SourceRecord → Files SourceRecord → Type 0) (frame : IsFrame env id P) where
  abbrev pub Keeps : {A : Type 0} → Action W A → Type 0
  Keeps m = Does P (λ a. Unit) m

  abbrev pub IsNamed : SourceRecord → Type 0
  IsNamed r = r.manifest.handoff_id ≡ id

  pub pure-Keeps : {A : Type 0} (a : A) → Keeps (pure a)
  pure-Keeps a = Does-pure P frame.same frame.then_also (λ b. Unit) a tt

  pub raise-Keeps : {A : Type 0} (k : Kind) → Keeps {A = A} (raise k)
  raise-Keeps k = Does-raise P frame.same frame.then_also (λ b. Unit) k

  pub then-Keeps :
      {A B : Type 0} (m : Action W A) (f : A → Action W B)
      → Keeps m
      → ((a : A) → Keeps (f a))
      → Keeps (m >>= f)
  then-Keeps m f km kf =
      Does-bind P frame.same frame.then_also (λ a. Unit) (λ b. Unit) m f km (λ a _. kf a)

  pub named-Keeps :
      {B : Type 0} (m : Action W SourceRecord) (f : SourceRecord → Action W B)
      → Does P IsNamed m
      → ((q : SourceRecord) → IsNamed q → Keeps (f q))
      → Keeps (m >>= f)
  named-Keeps m f km kf = Does-bind P frame.same frame.then_also IsNamed (λ b. Unit) m f km kf

  pub ask-Keeps : {A : Type 0} (f : W → A × W) → Keeps (ask f)
  ask-Keeps f = Does-ask P frame.same frame.then_also f

  written-Does :
      (k : Kind) (s : State W) (x : Result Error Written)
      → P s.files (files_after env x s.files)
      → ((w : Written) → x ≡ ok w → IsNamed (w.0))
      → P s.files ((written env peer k s x).1.files) × Answers IsNamed ((written env peer k s x).0)
  unfolding Answers
  written-Does k s (ok (q, replay, files)) p n = (p, n (q, replay, files) refl)
  written-Does k s (err e) p n = (p, tt)

  pub Does-written :
      (k : Kind) (call : State W → Result Error Written)
      → ((s : State W) → P s.files (files_after env (call s) s.files))
      → ((s : State W) (w : Written) → call s ≡ ok w → IsNamed (w.0))
      → Does P IsNamed (λ s. written env peer k s (call s))
  Does-written k call p n = record {
    changes = λ s. (written-Does k s (call s) (p s) (n s)).0;
    answers = λ s. (written-Does k s (call s) (p s) (n s)).1;
  }

  pub transition-Does :
      (key : Text) (revision : ℕ) (next : SourceState) (t : Transition)
      → key ≡ id
      → Does P IsNamed (transition env peer key revision next t)
  unfolding transition answer call_id
  transition-Does key revision next t e =
      Does-written conflict
        (λ s. transition_source env (peer.store_now s.world) key revision next t s.files)
        (λ s.
          frame.step (History.transition (peer.store_now s.world) key revision next t) s.files e)
        (λ s w h.
          Outcome-named env key s.files w
            (transition-Outcome env (peer.store_now s.world) key revision next t s.files h)
          ∙ e)

  pub time-Keeps : (limit : Time) → Keeps (source_transition_time env peer limit)
  unfolding source_transition_time
  time-Keeps limit = then-Keeps (ask peer.now) _ (ask-Keeps peer.now) (λ at. pure-Keeps _)

  pub transition_to-Keeps :
      (r : SourceRecord) (next : SourceState) (retry : Time → Option Time)
      (failure : Time → Option Failure)
      → IsNamed r
      → Keeps (transition_to env peer r next retry failure)
  unfolding transition_to
  transition_to-Keeps r next retry failure n =
      then-Keeps (source_transition_time env peer r.updated) _ (time-Keeps r.updated) (λ at.
        named-Keeps _ _ (transition-Does r.manifest.handoff_id r.revision next _ n)
          (λ q _. pure-Keeps _))

  pub retry-Keeps :
      (r : SourceRecord) (f : Failure) → IsNamed r → Keeps (transition_retry env peer r f)
  unfolding transition_retry
  retry-Keeps r f n = transition_to-Keeps r _ _ _ n

  pub launch_retry-Keeps :
      (r : SourceRecord) (f : Failure) → IsNamed r → Keeps (transition_launch_retry env peer r f)
  unfolding transition_launch_retry
  launch_retry-Keeps r f n = transition_to-Keeps r _ _ _ n

  pub failed-Keeps :
      (r : SourceRecord) (f : Failure) → IsNamed r → Keeps (transition_failed env peer r f)
  unfolding transition_failed
  failed-Keeps r f n = transition_to-Keeps r _ _ _ n

  -- A reading of the clock, and a write that it dates
  pub dated-Keeps :
      {A : Type 0} (limit : Time) (f : Time → Action W A)
      → ((at : Time) → Keeps (f at))
      → Keeps (source_transition_time env peer limit >>= f)
  dated-Keeps limit f k = then-Keeps (source_transition_time env peer limit) f (time-Keeps limit) k

  pub enter-Does :
      (inside : Bool) (next : SourceState) (r : SourceRecord)
      → IsNamed r
      → Does P IsNamed (enter env peer inside next r)
  unfolding enter
  enter-Does true next r n = Does-pure P frame.same frame.then_also IsNamed r n
  enter-Does false next r n =
      Does-bind P frame.same frame.then_also (λ a. Unit) IsNamed
        (source_transition_time env peer r.updated) _ (time-Keeps r.updated)
        (λ at _. transition-Does r.manifest.handoff_id r.revision next _ n)

  pub early-Keeps : (force : Bool) (retry : Option Time) → Keeps (is_early env peer force retry)
  unfolding is_early
  early-Keeps true retry = pure-Keeps _
  early-Keeps false none = pure-Keeps _
  early-Keeps false (some t) = then-Keeps (ask peer.now) _ (ask-Keeps peer.now) (λ at. pure-Keeps _)

  read-both :
      (kind : Error → Kind) (s : State W) (x : Result Error SourceRecord)
      → ((r : SourceRecord) → x ≡ ok r → IsNamed r)
      → P s.files ((read_answer env peer kind s x).1.files)
        × Answers IsNamed ((read_answer env peer kind s x).0)
  unfolding Answers
  read-both kind s (ok r) n = (frame.same s.files, n r refl)
  read-both kind s (err e) n = (frame.same s.files, tt)

  read-IsNamed : (s : State W) (r : SourceRecord) → get_source env id s.files ≡ ok r → IsNamed r
  read-IsNamed s r h = sym (get_source-IsSourceRecord env id s.files h).1.named

  pub read-Does : (kind : Error → Kind) → Does P IsNamed (read_record env peer kind id)
  unfolding read_record
  read-Does kind = record {
    changes = λ s. (read-both kind s (get_source env id s.files) (read-IsNamed s)).0;
    answers = λ s. (read-both kind s (get_source env id s.files) (read-IsNamed s)).1;
  }
