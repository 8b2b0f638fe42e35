-- ===== src/Handoff/Source/Conflicts.antt =====
-- Concurrent writers and replays of the source store.
use arcmux.Prelude.{Time, ℕ, ◌≡◌, refl, sym, subst, ap, arith, Bool, true, false, ◌==◌}
use arcmux.Prelude.Text.{Text}
use arcmux.Prelude.Results.{ok, err, >>=-ok, guard-ok}
use arcmux.Handoff.Manifest.{Env, Manifest}
use arcmux.Handoff.Record.{
  SourceState, SourceRecord, Transition, valid_source_state, is_source_accepted,
  legal_source_transition,
}
use arcmux.Handoff.Files.{Files, write, read-write-same}
use arcmux.Handoff.Store.{
  cas_conflict, manifest_conflict, refused, illegal_transition, apply_locator, next_revision,
}
use arcmux.Handoff.Source.{get_source, transition_source, queue_source, Written, commit_source}
use arcmux.Handoff.Source.Moves.{
  get_source-ok, get_source-safe, get_source-IsSourceRecord, commit_source-ok,
}

other_revision : (n k : ℕ) → (n == k) ≡ true → (next_revision n == k) ≡ false
unfolding next_revision
other_revision n k e = ground arith

module _ (env : Env) where
  stale-Conflict :
      (now : Time) (id : Text) (expected : ℕ) (next : SourceState) (t : Transition)
      (files : Files SourceRecord) (q : SourceRecord)
      → valid_source_state next ≡ true
      → get_source env id files ≡ ok q
      → (q.revision == expected) ≡ false
      → transition_source env now id expected next t files ≡ err cas_conflict
  unfolding transition_source
  stale-Conflict now id expected next t files q valid g stale = rw (valid, g, stale)

  committed-Conflict :
      (now : Time) (id : Text) (expected : ℕ) (next : SourceState) (t : Transition)
      (files : Files SourceRecord) (r q : SourceRecord) {w : Written}
      → valid_source_state next ≡ true
      → get_source env id files ≡ ok r
      → (r.revision == expected) ≡ true
      → q.revision ≡ next_revision r.revision
      → q.manifest ≡ r.manifest
      → commit_source env id q files ≡ ok w
      → transition_source env now id expected next t (w.2) ≡ err cas_conflict
  committed-Conflict now id expected next t files r q valid g same rev man c =
      let (e, v) = commit_source-ok env id q files c in
      let (found, kept) = get_source-IsSourceRecord env id files g in
      let back =
        get_source-ok env id (write id q files) q (get_source-safe env id files g)
          (read-write-same id q files)
          (record { valid = v; named = cc (kept.named, ap (λ x. x.handoff_id) man) }) in
      subst (λ x. transition_source env now id expected next t (x.2) ≡ err cas_conflict) (sym e)
        (stale-Conflict now id expected next t (write id q files) q valid back (
          subst (λ n. (n == expected) ≡ false) (sym rev) (other_revision r.revision expected same)))

  -- Two writers that read the same revision of a handoff: when the transition of the first
  -- succeeds, that of the second, to any known state, fails with a revision conflict.
  pub transition_source-conflict :
      (now later : Time) (id : Text) (expected : ℕ) (first second : SourceState) (t u : Transition)
      (files written : Files SourceRecord) (q : SourceRecord) (replay : Bool)
      → valid_source_state second ≡ true
      → transition_source env now id expected first t files ≡ ok (q, replay, written)
      → transition_source env later id expected second u written ≡ err cas_conflict
  unfolding transition_source
  transition_source-conflict now later id expected first second t u files written q replay valid h =
      let (a, h1) = guard-ok (valid_source_state first) refused _ h in
      let (r, g, h2) = >>=-ok (get_source env id files) _ h1 in
      let (same, h3) = guard-ok (r.revision == expected) cas_conflict _ h2 in
      let (legal, h4) = guard-ok (legal_source_transition r.state first) illegal_transition _ h3 in
      let (late, h5) = guard-ok _ _ _ h4 in
      let (l, k, h6) =
        >>=-ok (apply_locator (is_source_accepted first) t.target_locator r.target_locator) _ h5 in
      committed-Conflict later id expected second u files r _ valid g same refl refl h6

  abbrev Queued : Time → Manifest → Manifest → SourceRecord → Files SourceRecord → Type 0
  Queued later m n q written =
      (get_source env m.handoff_id written ≡ ok q)
      × (q.manifest ≡ m)
      × (queue_source env later m written ≡ ok (q, true, written))
      × (queue_source env later n written ≡ err manifest_conflict)
