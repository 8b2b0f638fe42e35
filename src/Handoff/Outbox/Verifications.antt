-- ===== src/Handoff/Outbox/Verifications.antt =====
-- Verification changes the files only by calls of the store for its handoff.
use arcmux.Prelude.{Time, ◌≡◌, not, Option, none, some, if_cases}
use arcmux.Prelude.Text.{Text}
use arcmux.Prelude.Results.{Result, ok, err}
use arcmux.Handoff.Manifest.{Env}
use arcmux.Handoff.Record.{SourceRecord, ContextAcknowledgement, TargetLocator, is_source_accepted}
use arcmux.Handoff.Files.{Files}
use arcmux.Handoff.Source.Proofs.{record_source_context_loaded}
use arcmux.Handoff.Source.History as History
use arcmux.Handoff.Source.History.{Call, call_id, answer, files_after}
use arcmux.Handoff.Action.{Action, Does, Does-any, pure, raise, conflict}
use arcmux.Handoff.Outbox.{Peer, Verification, CallError, mismatch, pending_verification}
use arcmux.Handoff.Outbox.Retire.{
  record_proof_or, record_verified, settle_verify, verify_at, verify, get_error, unverified,
  is_other_answer, is_unproved,
}
use arcmux.Handoff.Outbox.Keeps as Frame
use arcmux.Handoff.Outbox.Keeps.{IsFrame, Outcome-named}
use arcmux.Handoff.Outbox.Retirements.{viewed-changes}

module _ {W : Type 0} (env : Env) (peer : Peer W) (id : Text)
    (P : Files SourceRecord → Files SourceRecord → Type 0) (frame : IsFrame env id P) where
  abbrev Keeps : {A : Type 0} → Action W A → Type 0
  Keeps m = Does P (λ a. Unit) m

  abbrev IsNamed : SourceRecord → Type 0
  IsNamed r = r.manifest.handoff_id ≡ id

  rests : {A : Type 0} (a : A) → Keeps (pure a)
  rests a = Frame.pure-Keeps env peer id P frame a

  refuses : {A : Type 0} → Keeps {A = A} (raise conflict)
  refuses = Frame.raise-Keeps env peer id P frame conflict

  proof_or-Keeps :
      (r : SourceRecord) (a : ContextAcknowledgement) (at : Time)
      → IsNamed r
      → Keeps (record_proof_or env peer r a at)
  unfolding record_proof_or answer call_id
  proof_or-Keeps r a at n = Does-any P (record_proof_or env peer r a at) (λ s.
      let now = peer.store_now s.world in
      viewed-changes env peer id P frame (unverified r mismatch) s
        (record_source_context_loaded env now r.manifest.handoff_id r.revision a at s.files)
        (frame.step (History.context_loaded now r.manifest.handoff_id r.revision a at) s.files n))

  verified-Keeps :
      (r : SourceRecord) (o : Option ContextAcknowledgement)
      → IsNamed r
      → Keeps (record_verified env peer r o)
  unfolding record_verified
  verified-Keeps r none n = rests _
  verified-Keeps r (some a) n =
      Frame.dated-Keeps env peer id P frame r.updated _ (λ at. proof_or-Keeps r a at n)

  settle_verify-Keeps :
      (r : SourceRecord) (l : TargetLocator) (x : Result CallError Verification)
      → IsNamed r
      → Keeps (settle_verify env peer r l x)
  unfolding settle_verify
  settle_verify-Keeps r l (err e) n = rests _
  settle_verify-Keeps r l (ok v) n =
      if_cases Keeps (is_other_answer r l v) (λ _. rests (unverified r mismatch))
        (λ _.
          if_cases Keeps (is_unproved v) (λ _. rests (unverified r pending_verification))
            (λ _. verified-Keeps r v.acknowledgement n))

  verify_at-Keeps :
      (r : SourceRecord) (o : Option TargetLocator) → IsNamed r → Keeps (verify_at env peer r o)
  unfolding verify_at
  verify_at-Keeps r none n = refuses
  verify_at-Keeps r (some l) n =
      if_cases Keeps (not (is_source_accepted r.state)) (λ _. refuses)
        (λ _.
          Frame.then-Keeps env peer id P frame _ _ (Frame.ask-Keeps env peer id P frame _)
            (λ x. settle_verify-Keeps r l x n))

  pub verify-Keeps : Keeps (verify env peer id)
  unfolding verify
  verify-Keeps =
      Frame.named-Keeps env peer id P frame _ _ (Frame.read-Does env peer id P frame get_error)
        (λ r n. verify_at-Keeps r r.target_locator n)
