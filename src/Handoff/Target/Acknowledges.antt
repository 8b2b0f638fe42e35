-- ===== src/Handoff/Target/Acknowledges.antt =====
-- Who can acknowledge that a target has loaded the context of a handoff.
use arcmux.Prelude.{
  Time, ◌≡◌, refl, sym, ◌∙◌, subst, arith, Bool, true, false, not, ◌&&◌, Option, none, some, List,
  [], ◌∷◌, leb,
}
use arcmux.Prelude.Text.{Text, text_eq, text_eq_iff}
use arcmux.Prelude.Results.{Result, ok, ok_or, >>=-ok, guard-ok, ok_or-ok, ok_unique}
use arcmux.Handoff.Manifest.{Env}
use arcmux.Handoff.Record.{
  TargetRecord, TargetLocator, AcknowledgementPhase, ContextAcknowledgement, is_target_accepted,
}
use arcmux.Handoff.Record.Validate.{
  target_record_validate, context_loaded_validate, is_context_loaded,
}
use arcmux.Handoff.Files.{Files, read, write, record_files, read-write-same}
use arcmux.Handoff.Store.{
  Error, acknowledgement_unavailable, target_not_accepted, refused, next_revision, time_or,
}
use arcmux.Handoff.Source.Moves.{both_first}
use arcmux.Handoff.Source.Retirements.{and_right, proof_fields}
use arcmux.Handoff.Target.{Written}
use arcmux.Handoff.Target.Marker.{
  launch_marker, is_launch_marker, marker_record, acknowledge_over, acknowledge_record,
  acknowledge_from, acknowledge_target,
}
use arcmux.Handoff.Target.Bindings.{commit_target-ok}

-- An acknowledged record: accepted, of the marker, with a locator that names the caller, and with
-- a proof of its own digest and locator.
pub record IsAcknowledged (env : Env) (marker scope session : Text) (r : TargetRecord)
    : Type 0 where
  pub accepted : is_target_accepted r.state ≡ true
  pub marked : launch_marker env r.manifest.handoff_id r.digest ≡ marker
  pub locator : TargetLocator
  pub located : r.target_locator ≡ some locator
  pub same_scope : locator.profile_scope ≡ scope
  pub same_session : locator.session_id ≡ session
  pub proof : ContextAcknowledgement
  pub loaded : r.context_loaded ≡ some proof
  pub same_digest : proof.manifest_digest ≡ r.digest
  pub same_locator : proof.target_locator ≡ locator

last_five : (a b c d e : Bool) → (a && (b && (c && (d && e)))) ≡ true → e ≡ true
last_five a b c d e h = ground arith

some_eq : {A : Type 0} {a b : A} {o : Option A} → o ≡ some a → o ≡ some b → b ≡ a
some_eq h k = cc

module _ (env : Env) where
  proof_check :
      (r : TargetRecord)
      → target_record_validate env r ≡ true
      → context_loaded_validate r.context_loaded
          (is_target_accepted r.state)
          r.target_locator
          r.digest
        ≡ true
  unfolding target_record_validate
  proof_check r v = search last_five

  valid-IsAcknowledged :
      (marker scope session : Text) (r : TargetRecord) (l : TargetLocator)
      (a : ContextAcknowledgement)
      → target_record_validate env r ≡ true
      → launch_marker env r.manifest.handoff_id r.digest ≡ marker
      → r.target_locator ≡ some l
      → l.profile_scope ≡ scope
      → l.session_id ≡ session
      → r.context_loaded ≡ some a
      → IsAcknowledged env marker scope session r
  valid-IsAcknowledged marker scope session r l a v m k sc se c =
      let (x, located, digest, same, acc) =
        proof_fields r.context_loaded (is_target_accepted r.state) r.target_locator r.digest a c
          (proof_check r v) in
      record {
        accepted = acc;
        marked = m;
        locator = l;
        located = k;
        same_scope = sc;
        same_session = se;
        proof = a;
        loaded = c;
        same_digest = digest;
        same_locator = same ∙ some_eq k located;
      }

  -- The answer of an acknowledgement: an acknowledged record that is what is read
  pub record IsAnswer (marker scope session : Text) (w : Written) : Type 0 where
    pub known : IsAcknowledged env marker scope session (w.0)
    pub kept : read (w.0).manifest.handoff_id (w.2) ≡ some (w.0)

  over-IsAnswer :
      (now at : Time) (phase : AcknowledgementPhase) (marker scope session : Text)
      (r : TargetRecord) (l : TargetLocator) (o : Option ContextAcknowledgement) (id : Text)
      (files : Files TargetRecord) {w : Written}
      → target_record_validate env r ≡ true
      → id ≡ r.manifest.handoff_id
      → read id files ≡ some r
      → launch_marker env r.manifest.handoff_id r.digest ≡ marker
      → r.target_locator ≡ some l
      → l.profile_scope ≡ scope
      → l.session_id ≡ session
      → r.context_loaded ≡ o
      → acknowledge_over env now at phase r l o id files ≡ ok w
      → IsAnswer marker scope session w
  unfolding acknowledge_over
  over-IsAnswer now at phase marker scope session r l (some a) id files v i e m k sc se c h =
      subst (IsAnswer marker scope session) (ok_unique refl h) (record {
        known = valid-IsAcknowledged marker scope session r l a v m k sc se c;
        kept = subst (λ x. read x files ≡ some r) i e;
      })
  over-IsAnswer now at phase marker scope session r l none id files v i e m k sc se c h =
      let (late, h1) = guard-ok (leb r.updated (time_or at now)) refused _ h in
      let a : ContextAcknowledgement = record {
        phase = phase;
        manifest_digest = r.digest;
        target_locator = l;
        acknowledged_at = time_or at now;
      } in
      let q : TargetRecord = record r {
        context_loaded = some a;
        revision = next_revision r.revision;
        updated = time_or at now;
      } in
      let (w, valid) = commit_target-ok env id q files h1 in
      subst (IsAnswer marker scope session) (sym w) (record {
        known = valid-IsAcknowledged marker scope session q l a valid m k sc se refl;
        kept = subst (λ x. read x (write id q files) ≡ some q) i (read-write-same id q files);
      })

  marker_record-ok :
      (id : Text) (files : Files TargetRecord) {r : TargetRecord}
      → marker_record env id files ≡ ok r
      → (target_record_validate env r ≡ true)
        × (id ≡ r.manifest.handoff_id)
        × (read id files ≡ some r)
  unfolding marker_record
  marker_record-ok id files h =
      let (r, k, h1) = >>=-ok (ok_or acknowledgement_unavailable (read id files)) _ h in
      let (v, h2) = guard-ok (target_record_validate env r) acknowledgement_unavailable _ h1 in
      let (same, h3) =
        guard-ok (text_eq id r.manifest.handoff_id) acknowledgement_unavailable _ h2 in
      subst
        (λ q.
          (target_record_validate env q ≡ true)
          × (id ≡ q.manifest.handoff_id)
          × (read id files ≡ some q))
        (ok_unique refl h3)
        (v, (text_eq_iff _ _).0 same, ok_or-ok acknowledgement_unavailable (read id files) k)

  record-IsAnswer :
      (now at : Time) (phase : AcknowledgementPhase) (marker scope session : Text)
      (r : TargetRecord) (id : Text) (files : Files TargetRecord) {w : Written}
      → marker_record env id files ≡ ok r
      → text_eq (launch_marker env r.manifest.handoff_id r.digest) marker ≡ true
      → acknowledge_record env now at phase scope session id r files ≡ ok w
      → IsAnswer marker scope session w
  unfolding acknowledge_record
  record-IsAnswer now at phase marker scope session r id files g m h =
      let (v, i, e) = marker_record-ok id files g in
      let (acc, h1) = guard-ok (is_target_accepted r.state) target_not_accepted _ h in
      let (l, k, h2) = >>=-ok (ok_or target_not_accepted r.target_locator) _ h1 in
      let (who, h3) =
        guard-ok (text_eq l.profile_scope scope && text_eq l.session_id session)
          acknowledgement_unavailable _ h2 in
      over-IsAnswer now at phase marker scope session r l r.context_loaded id files v i e
        ((text_eq_iff _ _).0 m) (ok_or-ok target_not_accepted r.target_locator k)
        ((text_eq_iff _ _).0 (both_first _ _ who)) ((text_eq_iff _ _).0 (and_right _ _ who)) refl h3

  either_ok {ℓ} :
      {A : Type 0} {P : Type ℓ} (b : Bool) {x y : Result Error A} {a : A}
      → elim b [ true ↦ x | false ↦ y ] ≡ ok a
      → (b ≡ true → x ≡ ok a → P)
      → (y ≡ ok a → P)
      → P
  either_ok true h f g = f refl h
  either_ok false h f g = g h

  from-IsAnswer :
      (now at : Time) (marker : Text) (phase : AcknowledgementPhase) (scope session : Text)
      (ids : List Text) (files : Files TargetRecord) {w : Written}
      → acknowledge_from env now at marker phase scope session ids files ≡ ok w
      → IsAnswer marker scope session w
  unfolding acknowledge_from
  from-IsAnswer now at marker phase scope session [] files h = cc
  from-IsAnswer now at marker phase scope session (id ∷ ids) files h =
      let (r, g, h1) = >>=-ok (marker_record env id files) _ h in
      either_ok (text_eq (launch_marker env r.manifest.handoff_id r.digest) marker) h1
        (λ m h2. record-IsAnswer now at phase marker scope session r id files g m h2)
        (λ h2. from-IsAnswer now at marker phase scope session ids files h2)

  -- An acknowledgement that succeeds, first or repeated, is for an accepted record whose launch
  -- marker is the one that was given and whose locator has the caller's profile scope and session.
  -- That record is what is read, and it holds a proof with its own digest and locator.
  pub acknowledge_target-IsAnswer :
      (now at : Time) (marker : Text) (phase : AcknowledgementPhase) (scope session : Text)
      (files : Files TargetRecord) (w : Written)
      → acknowledge_target env now marker phase scope session at files ≡ ok w
      → IsAnswer marker scope session w
  unfolding acknowledge_target
  acknowledge_target-IsAnswer now at marker phase scope session files w h =
      let (allowed, h1) =
        guard-ok
          (is_launch_marker marker
            && (is_context_loaded phase && (not (text_eq scope []) && not (text_eq session []))))
          acknowledgement_unavailable _ h in
      from-IsAnswer now at marker phase scope session (record_files files) files h1
