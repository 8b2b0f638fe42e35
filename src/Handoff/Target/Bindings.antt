-- ===== src/Handoff/Target/Bindings.antt =====
-- What the binding of a target launch leaves (internal/handoff/store.go).
use arcmux.Prelude.{
  Time, ℕ, ◌≡◌, refl, sym, subst, arith, true, false, ◌==◌, Option, none, some, leb,
}
use arcmux.Prelude.Text.{Text, text_eq, text_eq_iff, text_eq_refl}
use arcmux.Prelude.Results.{ok, ok_or, >>=-ok, guard-ok, ok_or-ok, ok_unique}
use arcmux.Handoff.Manifest.{Env, is_safe_id}
use arcmux.Handoff.Record.{TargetLocator, TargetRecord}
use arcmux.Handoff.Record.Validate.{locator_validate, locator_eq, target_record_validate}
use arcmux.Handoff.Files.{Files, read, write, read-write-same}
use arcmux.Handoff.Store.{
  manifest_conflict, cas_conflict, illegal_transition, refused, not_found, next_revision, time_or,
}
use arcmux.Handoff.Source.Retirements.{locator_eq-path}
use arcmux.Handoff.Target.{
  Written, get_target, commit_target, bind_over, record_target_launch_locator, is_target_launching,
}

pub record IsTargetRecord (env : Env) (id : Text) (r : TargetRecord) : Type 0 where
  pub valid : target_record_validate env r ≡ true
  pub named : id ≡ r.manifest.handoff_id

module _ (env : Env) where
  pub get_target-IsTargetRecord :
      (id : Text) (files : Files TargetRecord) {r : TargetRecord}
      → get_target env id files ≡ ok r
      → (is_safe_id id ≡ true) × (read id files ≡ some r) × IsTargetRecord env id r
  unfolding get_target
  get_target-IsTargetRecord id files h =
      let (safe, h1) = guard-ok (is_safe_id id) refused _ h in
      let (r, k, h2) = >>=-ok (ok_or not_found (read id files)) _ h1 in
      let (valid, h3) = guard-ok (target_record_validate env r) refused _ h2 in
      let (same, h4) = guard-ok (text_eq id r.manifest.handoff_id) refused _ h3 in
      let e = ok_or-ok not_found (read id files) k in
      subst (λ q. (is_safe_id id ≡ true) × (read id files ≡ some q) × IsTargetRecord env id q)
        (ok_unique refl h4) (safe, e, record { valid = valid; named = (text_eq_iff _ _).0 same })

  get_target-ok :
      (id : Text) (files : Files TargetRecord) (r : TargetRecord)
      → is_safe_id id ≡ true
      → read id files ≡ some r
      → IsTargetRecord env id r
      → get_target env id files ≡ ok r
  unfolding get_target
  get_target-ok id files r safe e v =
      rw (safe, e, v.valid, subst (λ i. text_eq id i ≡ true) v.named (text_eq_refl id))

  pub commit_target-ok :
      (id : Text) (r : TargetRecord) (files : Files TargetRecord) {w : Written}
      → commit_target env id r files ≡ ok w
      → (w ≡ (r, false, write id r files)) × (target_record_validate env r ≡ true)
  unfolding commit_target
  commit_target-ok id r files h = ground arith

  -- What binding leaves: a launching record that is bound to the locator
  pub record IsBound (id : Text) (l : TargetLocator) (w : Written) : Type 0 where
    pub found : get_target env id (w.2) ≡ ok (w.0)
    pub launching : is_target_launching (w.0).state ≡ true
    pub bound : (w.0).target_locator ≡ some l

  bind_over-IsBound :
      (now : Time) (id : Text) (l : TargetLocator) (at : Time) (r : TargetRecord)
      (o : Option TargetLocator) (files : Files TargetRecord) {w : Written}
      → get_target env id files ≡ ok r
      → is_target_launching r.state ≡ true
      → r.target_locator ≡ o
      → bind_over env now id l at r o files ≡ ok w
      → IsBound id l w
  unfolding bind_over
  bind_over-IsBound now id l at r (some b) files g n e h =
      let (same, h1) = guard-ok (locator_eq b l) manifest_conflict _ h in
      subst (IsBound id l) (ok_unique refl h1)
        (record { found = g; launching = n; bound = cc (e, locator_eq-path b l same) })
  bind_over-IsBound now id l at r none files g n e h =
      let (late, h1) = guard-ok (leb r.updated (time_or at now)) refused _ h in
      let q = record r {
        target_locator = some l;
        revision = next_revision r.revision;
        updated = time_or at now;
      } in
      let (w, v) = commit_target-ok id q files h1 in
      let (safe, found, kept) = get_target-IsTargetRecord id files g in
      subst (IsBound id l) (sym w) (record {
        found =
            get_target-ok id (write id q files) q safe (read-write-same id q files)
              (record { valid = v; named = kept.named });
        launching = n;
        bound = refl;
      })

  pub record-IsBound :
      (now : Time) (id : Text) (expected : ℕ) (l : TargetLocator) (at : Time)
      (files : Files TargetRecord) {w : Written}
      → record_target_launch_locator env now id expected l at files ≡ ok w
      → IsBound id l w
  unfolding record_target_launch_locator
  record-IsBound now id expected l at files h =
      let (v, h1) = guard-ok (locator_validate l) refused _ h in
      let (r, g, h2) = >>=-ok (get_target env id files) _ h1 in
      let (same, h3) = guard-ok (r.revision == expected) cas_conflict _ h2 in
      let (n, h4) = guard-ok (is_target_launching r.state) illegal_transition _ h3 in
      let (d, h5) = guard-ok (text_eq l.device_id r.manifest.target.device_id) refused _ h4 in
      bind_over-IsBound now id l at r r.target_locator files g n refl h5
