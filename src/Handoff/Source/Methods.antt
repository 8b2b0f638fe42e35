-- ===== src/Handoff/Source/Methods.antt =====
-- The outcome of each method of the source store.
use arcmux.Prelude.{Time, ℤ, ℕ, ◌≡◌, refl, sym, subst, inl, inr, true, Option, none, some, leb→le}
use arcmux.Prelude.Text.{Text, text_eq_iff}
use arcmux.Prelude.Results.{ok, ok_or, >>=-ok, guard-ok, ok_or-ok, ok_unique, if_ok}
use arcmux.Handoff.Manifest.{Env, Manifest, is_safe_id}
use arcmux.Handoff.Record.{
  SourceState, SourceRecord, SourceRetirement, RetirementMode, ContextAcknowledgement, Transition,
  TurnObservation, is_source_accepted,
}
use arcmux.Handoff.Manifest.Validate.{digest_of}
use arcmux.Handoff.Record.Validate.{known_mode, source_record_validate}
use arcmux.Handoff.Files.{Files, read}
use arcmux.Handoff.Store.{target_not_accepted, context_not_loaded, refused, apply_locator}
use arcmux.Handoff.Source.{
  Written, get_source, transition_source, queue_source, queue_over, new_source,
}
use arcmux.Handoff.Source.Proofs.{
  record_source_context_loaded, record_proof, valid_timeout, valid_observation, request_over,
  complete_over, is_some, is_retired, request_source_retirement, complete_source_retirement,
}
use arcmux.Handoff.Source.Moves.{
  Outcome, created, replayed, Retires_refl, Retires-none, Retires-some, both_first,
  retirement_accepted, get_source-IsSourceRecord, commit_source-ok, commit_source-Outcome,
  replay-Outcome,
}

module _ (env : Env) where
  pub transition-Outcome :
      (now : Time) (id : Text) (expected : ℕ) (next : SourceState) (t : Transition)
      (files : Files SourceRecord) {w : Written}
      → transition_source env now id expected next t files ≡ ok w
      → Outcome env id files w
  unfolding transition_source
  transition-Outcome now id expected next t files h =
      let (a, h1) = guard-ok _ _ _ h in
      let (r, g, h2) = >>=-ok (get_source env id files) _ h1 in
      let (b, h3) = guard-ok _ _ _ h2 in
      let (legal, h4) = guard-ok _ _ _ h3 in
      let (late, h5) = guard-ok _ _ _ h4 in
      let (l, k, h6) =
        >>=-ok (apply_locator (is_source_accepted next) t.target_locator r.target_locator) _ h5 in
      commit_source-Outcome env id files r _ g
        (record {
          manifest = refl;
          digest = refl;
          revision = refl;
          updated = leb→le _ _ late;
          state = inl legal;
          context = inr refl;
          retirement = Retires_refl r.retirement;
        })
        h6

  proof-Outcome :
      (now : Time) (id : Text) (expected : ℕ) (a : ContextAcknowledgement) (at : Time)
      (r : SourceRecord) (c : Option ContextAcknowledgement) (files : Files SourceRecord)
      {w : Written}
      → get_source env id files ≡ ok r
      → r.context_loaded ≡ c
      → is_source_accepted r.state ≡ true
      → record_proof env now id expected a at r c files ≡ ok w
      → Outcome env id files w
  unfolding record_proof
  proof-Outcome now id expected a at r (some b) files g e acc h =
      let (same, h1) = guard-ok _ _ _ h in replay-Outcome env id files r g refl h1
  proof-Outcome now id expected a at r none files g e acc h =
      let (b, h1) = guard-ok _ _ _ h in
      let (late, h2) = guard-ok _ _ _ h1 in
      commit_source-Outcome env id files r _ g
        (record {
          manifest = refl;
          digest = refl;
          revision = refl;
          updated = leb→le _ _ late;
          state = inr (refl, acc, refl);
          context = inl e;
          retirement = Retires_refl r.retirement;
        })
        h2

  pub context_loaded-Outcome :
      (now : Time) (id : Text) (expected : ℕ) (a : ContextAcknowledgement) (at : Time)
      (files : Files SourceRecord) {w : Written}
      → record_source_context_loaded env now id expected a at files ≡ ok w
      → Outcome env id files w
  unfolding record_source_context_loaded
  context_loaded-Outcome now id expected a at files h =
      let (r, g, h1) = >>=-ok (get_source env id files) _ h in
      let (acc, h2) = guard-ok _ _ _ h1 in
      let (l, k, h3) = >>=-ok (ok_or target_not_accepted r.target_locator) _ h2 in
      let (b, h4) = guard-ok _ _ _ h3 in
      proof-Outcome now id expected a at r r.context_loaded files g refl acc h4

  request-Outcome :
      (now : Time) (id : Text) (expected : ℕ) (mode : RetirementMode) (timeout : ℤ)
      (baseline : TurnObservation) (at : Time) (r : SourceRecord) (t : Option SourceRetirement)
      (files : Files SourceRecord) {w : Written}
      → get_source env id files ≡ ok r
      → r.retirement ≡ t
      → is_source_accepted r.state ≡ true
      → request_over env now id expected mode timeout baseline at r t files ≡ ok w
      → Outcome env id files w
  unfolding request_over
  request-Outcome now id expected mode timeout baseline at r (some t) files g e acc h =
      let (same, h1) = guard-ok _ _ _ h in replay-Outcome env id files r g refl h1
  request-Outcome now id expected mode timeout baseline at r none files g e acc h =
      let (b, h1) = guard-ok _ _ _ h in
      let (late, h2) = guard-ok _ _ _ h1 in
      commit_source-Outcome env id files r _ g
        (record {
          manifest = refl;
          digest = refl;
          revision = refl;
          updated = leb→le _ _ late;
          state = inr (refl, acc, refl);
          context = inr refl;
          retirement = Retires-none e;
        })
        h2

  pub retirement-Outcome :
      (now : Time) (id : Text) (expected : ℕ) (mode : RetirementMode) (timeout : ℤ)
      (baseline : TurnObservation) (at : Time) (files : Files SourceRecord) {w : Written}
      → request_source_retirement env now id expected mode timeout baseline at files ≡ ok w
      → Outcome env id files w
  unfolding request_source_retirement
  retirement-Outcome now id expected mode timeout baseline at files h =
      let (a, h1) = guard-ok (known_mode mode) refused _ h in
      let (b, h2) = guard-ok (valid_timeout timeout) refused _ h1 in
      let (c, h3) = guard-ok (valid_observation baseline) refused _ h2 in
      let (r, g, h4) = >>=-ok (get_source env id files) _ h3 in
      let (acc, h5) = guard-ok _ _ _ h4 in
      request-Outcome now id expected mode timeout baseline at r r.retirement files g refl
        (both_first (is_source_accepted r.state) (is_some r.context_loaded) acc) h5

  pub complete-Outcome :
      (now : Time) (id : Text) (expected : ℕ) (at : Time) (files : Files SourceRecord) {w : Written}
      → complete_source_retirement env now id expected at files ≡ ok w
      → Outcome env id files w
  unfolding complete_source_retirement complete_over
  complete-Outcome now id expected at files {w} h =
      let (r, g, h1) = >>=-ok (get_source env id files) _ h in
      let (t, k, h2) = >>=-ok (ok_or context_not_loaded r.retirement) _ h1 in
      let e = ok_or-ok context_not_loaded r.retirement k in
      if_ok (is_retired t.state) h2 (replay-Outcome env id files r g refl) (λ h3.
        let (b, h4) = guard-ok _ _ _ h3 in
        let (late, h5) = guard-ok _ _ _ h4 in
        commit_source-Outcome env id files r _ g
          (record {
            manifest = refl;
            digest = refl;
            revision = refl;
            updated = leb→le _ _ (both_first _ _ late);
            state = inr (
              refl,
              retirement_accepted r t e (get_source-IsSourceRecord env id files g).1,
              refl,
            );
            context = inr refl;
            retirement = Retires-some e refl refl;
          })
          h5)

  queue_over-Outcome :
      (now : Time) (m : Manifest) (digest : Text) (o : Option SourceRecord)
      (files : Files SourceRecord) {w : Written}
      → read m.handoff_id files ≡ o
      → queue_over env now m digest o files ≡ ok w
      → Outcome env m.handoff_id files w
  unfolding queue_over new_source
  queue_over-Outcome now m digest none files e h =
      let (w, v) = commit_source-ok env m.handoff_id (new_source env now m digest) files h in
      subst (Outcome env m.handoff_id files) (sym w)
        (created (new_source env now m digest) e (record { valid = v; named = refl }) refl)
  queue_over-Outcome now m digest (some r) files e h =
      let (v, h1) = guard-ok (source_record_validate env r) refused _ h in
      let (same, h2) = guard-ok _ _ _ h1 in
      subst (Outcome env m.handoff_id files) (ok_unique refl h2) (
        replayed r e
          (record { valid = v; named = sym ((text_eq_iff _ _).0 (both_first _ _ same)) }))

  pub queue-Outcome :
      (now : Time) (m : Manifest) (files : Files SourceRecord) {w : Written}
      → queue_source env now m files ≡ ok w
      → Outcome env m.handoff_id files w
  unfolding queue_source
  queue-Outcome now m files h =
      let (d, k, h1) = >>=-ok (ok_or refused (digest_of env m)) _ h in
      let (safe, h2) = guard-ok (is_safe_id m.handoff_id) refused _ h1 in
      queue_over-Outcome now m d (read m.handoff_id files) files refl h2
