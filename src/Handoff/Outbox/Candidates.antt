-- ===== src/Handoff/Outbox/Candidates.antt =====
-- The candidates of a recovery pass are none that waits for its launch.
use arcmux.Prelude.{
  Time, ◌≡◌, refl, sym, ap, ◌∙◌, subst, true, false, Bool-cases, not, is_zero, if_cases, inl, inr,
  some, List, [], ◌∷◌, All,
}
use arcmux.Prelude.Text.{Text, text_eq, text_eq_iff}
use arcmux.Prelude.Results.{ok, >>=-ok, guard-ok, ok_or-ok, ok_or, ok_unique}
use arcmux.Handoff.Manifest.{Env}
use arcmux.Handoff.Record.{SourceRecord, remote_prepared}
use arcmux.Handoff.Record.Validate.{source_record_validate}
use arcmux.Handoff.Files.{Files, read, record_files}
use arcmux.Handoff.Store.{not_found, refused}
use arcmux.Handoff.Source.Lists.{
  list_one, list_from, list_source, runnable_source, is_runnable, filter,
}

not_runnable :
    (at : Time) (c : SourceRecord) → c.state ≡ remote_prepared → is_runnable at c c.state ≡ false
unfolding is_runnable
not_runnable at c e = subst (λ s. is_runnable at c s ≡ false) (sym e) refl

some_same : {A : Type 0} {a b : A} → some a ≡ some b → a ≡ b
some_same h = cc

module _ (env : Env) where
  list_one-IsRead :
      (files : Files SourceRecord) (id : Text) {c : SourceRecord}
      → list_one env files id ≡ ok c
      → read c.manifest.handoff_id files ≡ some c
  unfolding list_one
  list_one-IsRead files id h =
      let (r, k, h1) = >>=-ok (ok_or not_found (read id files)) _ h in
      let (valid, h2) = guard-ok (source_record_validate env r) refused _ h1 in
      let (same, h3) = guard-ok (text_eq id r.manifest.handoff_id) refused _ h2 in
      subst (λ c. read c.manifest.handoff_id files ≡ some c) (ok_unique refl h3)
        (subst (λ i. read i files ≡ some r) ((text_eq_iff id r.manifest.handoff_id).0 same)
          (ok_or-ok not_found (read id files) k))

  list_from-IsRead :
      (files : Files SourceRecord) (ids : List Text) {cs : List SourceRecord}
      → list_from env files ids ≡ ok cs
      → All (λ c. read c.manifest.handoff_id files ≡ some c) cs
  unfolding list_from
  list_from-IsRead files [] h =
      subst (All (λ c. read c.manifest.handoff_id files ≡ some c)) (ok_unique refl h) tt
  list_from-IsRead files (id ∷ ids) h =
      let (r, k, h1) = >>=-ok (list_one env files id) _ h in
      let (rs, l, h2) = >>=-ok (list_from env files ids) _ h1 in
      subst (All (λ c. read c.manifest.handoff_id files ≡ some c)) (ok_unique refl h2)
        (list_one-IsRead files id k, list_from-IsRead files ids l)

  runnable-Apart :
      (at : Time) (files : Files SourceRecord) (other : Text) (r c : SourceRecord)
      → read other files ≡ some r
      → r.state ≡ remote_prepared
      → read c.manifest.handoff_id files ≡ some c
      → is_runnable at c c.state ≡ true
      → text_eq other c.manifest.handoff_id ≡ false
  runnable-Apart at files other r c e prepared found run =
      elim (Bool-cases (text_eq other c.manifest.handoff_id)) [
        | inl same ↦
            let i = (text_eq_iff other c.manifest.handoff_id).0 same in
            let p = some_same (sym e ∙ ap (λ x. read x files) i ∙ found) in
            cc (not_runnable at c (ap (λ x. x.state) (sym p) ∙ prepared), run)
        | inr apart ↦ apart
      ]

  filter-Apart :
      (at : Time) (files : Files SourceRecord) (other : Text) (r : SourceRecord)
      (cs : List SourceRecord)
      → read other files ≡ some r
      → r.state ≡ remote_prepared
      → All (λ c. read c.manifest.handoff_id files ≡ some c) cs
      → All
          (λ c. text_eq other c.manifest.handoff_id ≡ false)
          (filter (λ c. is_runnable at c c.state) cs)
  filter-Apart at files other r [] e prepared all = tt
  filter-Apart at files other r (c ∷ cs) e prepared all =
      let rest = filter-Apart at files other r cs e prepared all.1 in
      if_cases (All (λ c. text_eq other c.manifest.handoff_id ≡ false)) (is_runnable at c c.state)
        (λ run. (runnable-Apart at files other r c e prepared all.0 run, rest)) (λ _. rest)

  pub runnable_source-Apart :
      (at : Time) (files : Files SourceRecord) (other : Text) (r : SourceRecord)
      {cs : List SourceRecord}
      → read other files ≡ some r
      → r.state ≡ remote_prepared
      → runnable_source env at files ≡ ok cs
      → All (λ c. text_eq other c.manifest.handoff_id ≡ false) cs
  unfolding runnable_source list_source
  runnable_source-Apart at files other r e prepared h =
      let (set, h1) = guard-ok (not (is_zero at)) refused _ h in
      let (rs, l, h2) = >>=-ok (list_from env files (record_files files)) _ h1 in
      subst (All (λ c. text_eq other c.manifest.handoff_id ≡ false)) (ok_unique refl h2) (
        filter-Apart at files other r rs e prepared (list_from-IsRead files (record_files files) l))
