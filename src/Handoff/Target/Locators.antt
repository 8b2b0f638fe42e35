-- ===== src/Handoff/Target/Locators.antt =====
-- The locator that a target launch is bound to, over later calls of the store's target side
-- (internal/handoff/store.go).
use arcmux.Prelude.{
  Time, ℕ, ◌≡◌, refl, sym, ◌≢◌, ◌∙◌, subst, Bool, true, false, Bool-cases, inl, inr, ◌==◌, Option,
  none, some, leb,
}
use arcmux.Prelude.Text.{Text, text_eq, text_eq_iff, text_eq_refl}
use arcmux.Prelude.Results.{ok, >>=-ok, guard-ok, ok_unique}
use arcmux.Handoff.Manifest.{Env}
use arcmux.Handoff.Record.{
  TargetLocator, TargetRecord, TargetState, Transition, valid_target_state, is_launch_phase,
  legal_target_transition,
}
use arcmux.Handoff.Record.Validate.{locator_validate, locator_eq}
use arcmux.Handoff.Files.{Files, read, write, read-write-same, read-write-other}
use arcmux.Handoff.Store.{
  manifest_conflict, cas_conflict, illegal_transition, refused, time_or, apply_locator,
}
use arcmux.Handoff.Source.Retirements.{locator_eq-path}
use arcmux.Handoff.Target.{
  Written, get_target, bind_over, record_target_launch_locator, is_target_launching,
  transition_target,
}
use arcmux.Handoff.Target.Bindings.{get_target-IsTargetRecord, commit_target-ok, record-IsBound}

module _ (env : Env) (id : Text) (l : TargetLocator) where
  -- The record of the handoff is bound to the locator.
  abbrev pub Binds : Files TargetRecord → Type 0
  Binds files = (r : TargetRecord) × (read id files ≡ some r) × (r.target_locator ≡ some l)

  -- A write of some record, bound to the locator if it is this handoff's, keeps the binding.
  write-Binds :
      (other : Text) (q : TargetRecord) (files : Files TargetRecord)
      → Binds files
      → (text_eq id other ≡ true → q.target_locator ≡ some l)
      → Binds (write other q files)
  write-Binds other q files (r, found, bound) k = elim (Bool-cases (text_eq id other)) [
    | inl t ↦ (
      q,
      subst (λ i. read i (write other q files) ≡ some q) (sym ((text_eq_iff id other).0 t))
          (read-write-same other q files),
      k t,
    )
    | inr f ↦ (r, read-write-other other id q files f ∙ found, bound)
  ]

  -- What the record of a call is, where it is this handoff's
  found_bound :
      (other : Text) (q : TargetRecord) (files : Files TargetRecord)
      → Binds files
      → get_target env other files ≡ ok q
      → text_eq id other ≡ true
      → q.target_locator ≡ some l
  found_bound other q files (r, found, bound) g t =
      let (safe, there, valid) = get_target-IsTargetRecord env other files g in
      let e = (text_eq_iff id other).0 t in
      let here : read id files ≡ some q = subst (λ i. read i files ≡ some q) (sym e) there in
      cc (found, bound, here)

  bind_over-Binds :
      (now : Time) (other : Text) (m : TargetLocator) (at : Time) (q : TargetRecord)
      (o : Option TargetLocator) (files : Files TargetRecord) {w : Written}
      → Binds files
      → get_target env other files ≡ ok q
      → q.target_locator ≡ o
      → bind_over env now other m at q o files ≡ ok w
      → Binds (w.2)
  unfolding bind_over
  bind_over-Binds now other m at q (some b) files k g e h =
      let (same, h1) = guard-ok (locator_eq b m) manifest_conflict _ h in
      subst (λ (x : Written). Binds (x.2)) (ok_unique refl h1) k
  bind_over-Binds now other m at q none files k g e h =
      let (late, h1) = guard-ok (leb q.updated (time_or at now)) refused _ h in
      let (w, v) = commit_target-ok env other _ files h1 in
      subst (λ (x : Written). Binds (x.2)) (sym w)
        (write-Binds other _ files k (λ t. cc (found_bound other q files k g t, e)))

  record-Binds :
      (now : Time) (other : Text) (expected : ℕ) (m : TargetLocator) (at : Time)
      (files : Files TargetRecord) {w : Written}
      → Binds files
      → record_target_launch_locator env now other expected m at files ≡ ok w
      → Binds (w.2)
  unfolding record_target_launch_locator
  record-Binds now other expected m at files k h =
      let (v, h1) = guard-ok (locator_validate m) refused _ h in
      let (q, g, h2) = >>=-ok (get_target env other files) _ h1 in
      let (same, h3) = guard-ok (q.revision == expected) cas_conflict _ h2 in
      let (n, h4) = guard-ok (is_target_launching q.state) illegal_transition _ h3 in
      let (d, h5) = guard-ok (text_eq m.device_id q.manifest.target.device_id) refused _ h4 in
      bind_over-Binds now other m at q q.target_locator files k g refl h5

  kept_locator :
      (phase : Bool) (given here kept : Option TargetLocator)
      → phase ≡ true
      → given ≡ none
      → apply_locator phase given here ≡ ok kept
      → kept ≡ here
  unfolding apply_locator
  kept_locator true none here kept p g h = sym (ok_unique refl h)
  kept_locator true (some m) here kept p g h = cc
  kept_locator false given here kept p g h = cc

  transition-Binds :
      (now : Time) (other : Text) (expected : ℕ) (next : TargetState) (t : Transition)
      (files : Files TargetRecord) {w : Written}
      → Binds files
      → is_launch_phase next ≡ true
      → t.target_locator ≡ none
      → transition_target env now other expected next t files ≡ ok w
      → Binds (w.2)
  unfolding transition_target
  transition-Binds now other expected next t files k p u h =
      let (v, h1) = guard-ok (valid_target_state next) refused _ h in
      let (q, g, h2) = >>=-ok (get_target env other files) _ h1 in
      let (same, h3) = guard-ok (q.revision == expected) cas_conflict _ h2 in
      let (legal, h4) = guard-ok (legal_target_transition q.state next) illegal_transition _ h3 in
      let (late, h5) = guard-ok (leb q.updated (time_or t.at now)) refused _ h4 in
      let (kept, a, h6) =
        >>=-ok (apply_locator (is_launch_phase next) t.target_locator q.target_locator) _ h5 in
      let (w, x) = commit_target-ok env other _ files h6 in
      subst (λ (y : Written). Binds (y.2)) (sym w)
        (write-Binds other _ files k (λ e.
          kept_locator (is_launch_phase next) t.target_locator q.target_locator kept p u a
          ∙ found_bound other q files k g e))

  -- Successful calls, newest first: bindings of any handoffs to any locators, and transitions of any
  -- handoffs into a launch phase that give no locator of their own.
  pub data Later (files : Files TargetRecord) : Files TargetRecord → Type 0 where
    unmoved : Later files files
    rebound :
        {past files' : Files TargetRecord} {q : TargetRecord} {replay : Bool} (now : Time)
        (other : Text) (expected : ℕ) (m : TargetLocator) (at : Time)
        → Later files past
        → record_target_launch_locator env now other expected m at past ≡ ok (q, replay, files')
        → Later files files'
    moved :
        {past files' : Files TargetRecord} {q : TargetRecord} {replay : Bool} (now : Time)
        (other : Text) (expected : ℕ) (next : TargetState) (t : Transition)
        → Later files past
        → is_launch_phase next ≡ true
        → t.target_locator ≡ none
        → transition_target env now other expected next t past ≡ ok (q, replay, files')
        → Later files files'

  Later-Binds :
      {files files' : Files TargetRecord} → Later files files' → Binds files → Binds files'
  Later-Binds unmoved k = k
  Later-Binds (rebound {past} now other expected m at later h) k =
      record-Binds now other expected m at past (Later-Binds later k) h
  Later-Binds (moved {past} now other expected next t later p u h) k =
      transition-Binds now other expected next t past (Later-Binds later k) p u h

  bind_over_same :
      (now : Time) (m : TargetLocator) (at : Time) (q : TargetRecord) (o : Option TargetLocator)
      (files : Files TargetRecord) {w : Written}
      → o ≡ some l
      → bind_over env now id m at q o files ≡ ok w
      → l ≡ m
  unfolding bind_over
  bind_over_same now m at q none files e h = cc
  bind_over_same now m at q (some b) files e h =
      let (same, h1) = guard-ok (locator_eq b m) manifest_conflict _ h in
      cc (e, locator_eq-path b m same)

  record_same :
      (now : Time) (expected : ℕ) (m : TargetLocator) (at : Time) (files : Files TargetRecord)
      {w : Written}
      → Binds files
      → record_target_launch_locator env now id expected m at files ≡ ok w
      → l ≡ m
  unfolding record_target_launch_locator
  record_same now expected m at files k h =
      let (v, h1) = guard-ok (locator_validate m) refused _ h in
      let (q, g, h2) = >>=-ok (get_target env id files) _ h1 in
      let (same, h3) = guard-ok (q.revision == expected) cas_conflict _ h2 in
      let (n, h4) = guard-ok (is_target_launching q.state) illegal_transition _ h3 in
      let (d, h5) = guard-ok (text_eq m.device_id q.manifest.target.device_id) refused _ h4 in
      bind_over_same now m at q q.target_locator files
        (found_bound id q files k g (text_eq_refl id)) h5

-- Once a launch is bound to a locator, then after any successful calls that are bindings, of this or
-- other handoffs, or transitions into a launch phase that give no locator, no binding of the launch
-- to another locator succeeds, whatever revision it expects. A transition that gives a locator of
-- its own is not among these calls.
pub record_target_launch_locator-once :
    (env : Env) (id : Text) (l m : TargetLocator) (now at later due : Time) (expected again : ℕ)
    (files bound present : Files TargetRecord) (q : TargetRecord) (replay : Bool) (w : Written)
    → record_target_launch_locator env now id expected l at files ≡ ok (q, replay, bound)
    → Later env id l bound present
    → m ≢ l
    → record_target_launch_locator env later id again m due present ≢ ok w
record_target_launch_locator-once env id l m now at later due expected again files bound present q
      replay w h calls x e =
    let b = record-IsBound env now id expected l at files h in
    let (safe, found, valid) = get_target-IsTargetRecord env id bound b.found in
    x (
      sym (
        record_same env id l later again m due present
          (Later-Binds env id l calls (q, found, b.bound)) e))
