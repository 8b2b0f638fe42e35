-- ===== src/Handoff/Outbox/Exits.antt =====
-- A source session is retired only when it is seen to have exited.
use arcmux.Prelude.{◌≡◌, refl, ◌∙◌, false, not, ◌&&◌, Option, none, some, if_cases}
use arcmux.Prelude.Text.{text_eq}
use arcmux.Handoff.Manifest.{Env}
use arcmux.Handoff.Record.{SourceRecord, SourceRetirement}
use arcmux.Handoff.Files.{Files}
use arcmux.Handoff.Source.Proofs.{is_pending}
use arcmux.Handoff.Action as Act
use arcmux.Handoff.Action.{Action, State, Does, Does-any, Does-bind, Answers, pure, ask}
use arcmux.Handoff.Outbox.{Peer, Detail, record_dto}
use arcmux.Handoff.Outbox.Retire.{
  confirm_closed, close_and_confirm, retire_found, retire_asked, retire_pending, exact,
  lookup_exact_source, is_exited, is_after_turn_end, source_after_turn_retirement_ready,
}

-- No session, or one that has not exited
unfoldable pub IsLive : Option Detail → Type 0
IsLive none = Unit
IsLive (some d) = is_exited d ≡ false

abbrev Unchanged : Files SourceRecord → Files SourceRecord → Type 0
Unchanged f g = g ≡ f

module _ {W : Type 0} (env : Env) (peer : Peer W) where
  bind-Unchanged :
      {A B : Type 0} (Q : A → Type 0) (m : Action W A) (f : A → Action W B)
      → Does Unchanged Q m
      → ((a : A) → Q a → Does Unchanged (λ b. Unit) (f a))
      → Does Unchanged (λ b. Unit) (Act.◌>>=◌ m f)
  bind-Unchanged Q m f dm df =
      Does-bind Unchanged (λ g. refl) (λ g h i p q. q ∙ p) Q (λ b. Unit) m f dm df

  pure-Unchanged : {A : Type 0} (a : A) → Does {W = W} Unchanged (λ b. Unit) (pure a)
  pure-Unchanged a = Does-any Unchanged (pure a) (λ s. refl)

  exact-IsLive : (r : SourceRecord) (o : Option Detail) → IsLive o → IsLive (exact env peer r o)
  unfolding exact IsLive
  exact-IsLive r none h = tt
  exact-IsLive r (some d) h =
      if_cases IsLive
        (text_eq d.profile_scope r.manifest.source.profile_scope
          && text_eq d.session_id r.manifest.source.session_id)
        (λ _. h) (λ _. tt)

  module _ (r : SourceRecord)
      (live : (w : W)
        → IsLive (
            (peer.lookup_session r.manifest.source.profile_scope r.manifest.source.session_id
              w).0)) where
    lookup-Unchanged : Does Unchanged IsLive (lookup_exact_source env peer r)
    unfolding lookup_exact_source Act.◌>>=◌ Answers
    lookup-Unchanged = record {
      changes = λ s. refl;
      answers = λ s. exact-IsLive r _ (live s.world);
    }

    confirm-Unchanged :
        (d : Option Detail) → IsLive d → Does Unchanged (λ b. Unit) (confirm_closed env peer r d)
    unfolding confirm_closed IsLive
    confirm-Unchanged none h = pure-Unchanged _
    confirm-Unchanged (some d) h =
        if_cases (Does Unchanged (λ b. Unit)) (is_exited d) (λ e. cc (e, h))
          (λ _. pure-Unchanged (record_dto r))

    close-Unchanged :
        (t : SourceRetirement) → Does Unchanged (λ b. Unit) (close_and_confirm env peer r t)
    unfolding close_and_confirm
    close-Unchanged t =
        bind-Unchanged (λ a. Unit) (ask (peer.close_source r.manifest.source t.timeout_seconds)) _
          (Does-any Unchanged _ (λ s. refl))
          (λ closed _.
            if_cases (Does Unchanged (λ b. Unit)) (not closed) (λ _. pure-Unchanged (record_dto r))
              (λ _. bind-Unchanged IsLive _ _ lookup-Unchanged confirm-Unchanged))

    found-Unchanged :
        (t : SourceRetirement) (d : Option Detail)
        → IsLive d
        → Does Unchanged (λ b. Unit) (retire_found env peer r t d)
    unfolding retire_found IsLive
    found-Unchanged t none h = pure-Unchanged _
    found-Unchanged t (some d) h =
        if_cases (Does Unchanged (λ b. Unit)) (is_exited d) (λ e. cc (e, h))
          (λ _.
            if_cases (Does Unchanged (λ b. Unit))
              (is_after_turn_end t.mode && not (source_after_turn_retirement_ready t d))
              (λ _. pure-Unchanged (record_dto r)) (λ _. close-Unchanged t))

    asked-Unchanged :
        (o : Option SourceRetirement) → Does Unchanged (λ b. Unit) (retire_asked env peer r o)
    unfolding retire_asked
    asked-Unchanged none = pure-Unchanged _
    asked-Unchanged (some t) =
        if_cases (Does Unchanged (λ b. Unit)) (not (is_pending t.state))
          (λ _. pure-Unchanged (record_dto r))
          (λ _. bind-Unchanged IsLive _ _ lookup-Unchanged (found-Unchanged t))

  -- While the catalog never shows the source session of a record as exited, a pass over its
  -- pending retirement leaves the files as they were, whatever the close request answers: a close
  -- that succeeds does not by itself retire the source.
  pub retire_pending-unchanged :
      (r : SourceRecord)
      → ((w : W)
          → IsLive (
              (peer.lookup_session r.manifest.source.profile_scope r.manifest.source.session_id
                w).0))
      → (s : State W) → (retire_pending env peer r s).1.files ≡ s.files
  unfolding retire_pending
  retire_pending-unchanged r live s = (asked-Unchanged r live r.retirement).changes s
