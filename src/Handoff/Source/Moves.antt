-- ===== src/Handoff/Source/Moves.antt =====
-- What a method of the source store that succeeds does to the record of its id.
use arcmux.Prelude.{
  ◌≤◌, ◌≡◌, refl, sym, subst, arith, ◌⊎◌, Bool, true, false, ◌&&◌, Option, none, some,
}
use arcmux.Prelude.Text.{Text, text_eq, text_eq_iff, text_eq_refl}
use arcmux.Prelude.Results.{Result, ok, ok_or, >>=-ok, guard-ok, ok_or-ok, ok_unique}
use arcmux.Handoff.Manifest.{Env, is_safe_id}
use arcmux.Handoff.Record.{
  SourceRecord, SourceRetirement, ContextAcknowledgement, is_source_accepted,
  legal_source_transition, legal_source_transition,
}
use arcmux.Handoff.Record.Validate.{source_record_validate, retirement_field_validate}
use arcmux.Handoff.Files.{Files, read, write}
use arcmux.Handoff.Store.{Error, refused, not_found, next_revision}
use arcmux.Handoff.Source.{Written, get_source, commit_source}

pub record IsSourceRecord (env : Env) (id : Text) (r : SourceRecord) : Type 0 where
  pub valid : source_record_validate env r ≡ true
  pub named : id ≡ r.manifest.handoff_id

-- The retirement of a record only ever appears, or goes on with the same options.
pub data Retires : Option SourceRetirement → Option SourceRetirement → Type 0 where
  requested : {t : Option SourceRetirement} → Retires none t
  goes_on :
      (t u : SourceRetirement)
      → u.mode ≡ t.mode
      → u.timeout_seconds ≡ t.timeout_seconds
      → Retires (some t) (some u)

-- One write over an existing record
pub record Moved (r q : SourceRecord) : Type 0 where
  pub manifest : q.manifest ≡ r.manifest
  pub digest : q.digest ≡ r.digest
  pub revision : q.revision ≡ next_revision r.revision
  pub updated : r.updated ≤ q.updated
  pub state :
      (legal_source_transition r.state q.state ≡ true)
      ⊎ ((q.state ≡ r.state)
          × (is_source_accepted r.state ≡ true)
          × (q.target_locator ≡ r.target_locator))
  pub context : (r.context_loaded ≡ none) ⊎ (q.context_loaded ≡ r.context_loaded)
  pub retirement : Retires r.retirement q.retirement

pub Retires_refl : (t : Option SourceRetirement) → Retires t t
Retires_refl none = requested
Retires_refl (some t) = goes_on t t refl refl

pub Retires-none : {o t : Option SourceRetirement} → o ≡ none → Retires o t
Retires-none {o} {t} e = subst (λ p. Retires p t) (sym e) requested

pub Retires-some :
    {o : Option SourceRetirement} {t u : SourceRetirement}
    → o ≡ some t
    → u.mode ≡ t.mode
    → u.timeout_seconds ≡ t.timeout_seconds
    → Retires o (some u)
Retires-some {o} {t} {u} e m s = subst (λ p. Retires p (some u)) (sym e) (goes_on t u m s)

pub both_first : (a b : Bool) → (a && b) ≡ true → a ≡ true
both_first a b h = ground arith

retirement_field_accepted :
    (o : Option SourceRetirement) (accepted : Bool) (c : Option ContextAcknowledgement)
    (t : SourceRetirement)
    → o ≡ some t
    → retirement_field_validate o accepted c ≡ true
    → accepted ≡ true
unfolding retirement_field_validate
retirement_field_accepted none accepted c t e h = cc
retirement_field_accepted (some u) accepted none t e h = cc
retirement_field_accepted (some u) accepted (some a) t e h = both_first _ _ h

last_and : (a b c d e f : Bool) → (a && (b && (c && (d && (e && f))))) ≡ true → f ≡ true
last_and a b c d e f h = ground arith

retired_fields :
    (env : Env) (r : SourceRecord) (t : SourceRetirement)
    → r.retirement ≡ some t
    → source_record_validate env r ≡ true
    → is_source_accepted r.state ≡ true
unfolding source_record_validate
retired_fields env r t e v =
    retirement_field_accepted r.retirement (is_source_accepted r.state) r.context_loaded t e
      (search last_and)

-- A record that validates and has a retirement is accepted.
pub retirement_accepted :
    {env : Env} (r : SourceRecord) (t : SourceRetirement) {id : Text}
    → r.retirement ≡ some t
    → IsSourceRecord env id r
    → is_source_accepted r.state ≡ true
retirement_accepted {env} r t e v = retired_fields env r t e v.valid

module _ (env : Env) where
  pub get_source-IsSourceRecord :
      (id : Text) (files : Files SourceRecord) {r : SourceRecord}
      → get_source env id files ≡ ok r
      → (read id files ≡ some r) × IsSourceRecord env id r
  unfolding get_source
  get_source-IsSourceRecord id files h =
      let (safe, h1) = guard-ok (is_safe_id id) refused _ h in
      let (r, k, h2) = >>=-ok (ok_or not_found (read id files)) _ h1 in
      let (valid, h3) = guard-ok (source_record_validate env r) refused _ h2 in
      let (same, h4) = guard-ok (text_eq id r.manifest.handoff_id) refused _ h3 in
      let e = ok_or-ok not_found (read id files) k in
      subst (λ q. (read id files ≡ some q) × IsSourceRecord env id q) (ok_unique refl h4)
        (e, record { valid = valid; named = (text_eq_iff _ _).0 same })

  -- A record that is kept under its id is the one that is read.
  pub get_source-ok :
      (id : Text) (files : Files SourceRecord) (r : SourceRecord)
      → is_safe_id id ≡ true
      → read id files ≡ some r
      → IsSourceRecord env id r
      → get_source env id files ≡ ok r
  unfolding get_source
  get_source-ok id files r safe e v =
      rw (safe, e, v.valid, subst (λ i. text_eq id i ≡ true) v.named (text_eq_refl id))

  pub get_source-safe :
      (id : Text) (files : Files SourceRecord) {r : SourceRecord}
      → get_source env id files ≡ ok r
      → is_safe_id id ≡ true
  unfolding get_source
  get_source-safe id files h = (guard-ok (is_safe_id id) refused _ h).0

  pub commit_source-ok :
      (id : Text) (r : SourceRecord) (files : Files SourceRecord) {w : Written}
      → commit_source env id r files ≡ ok w
      → (w ≡ (r, false, write id r files)) × (source_record_validate env r ≡ true)
  unfolding commit_source
  commit_source-ok id r files h = ground arith

  -- What a method leaves in the files: the same, or one moved record.
  pub data Outcome (id : Text) (files : Files SourceRecord) : Written → Type 0 where
    replayed :
        (q : SourceRecord)
        → read id files ≡ some q
        → IsSourceRecord env id q
        → Outcome id files (q, true, files)
    created :
        (q : SourceRecord)
        → read id files ≡ none
        → IsSourceRecord env id q
        → q.revision ≡ 1
        → Outcome id files (q, false, write id q files)
    moved :
        (r q : SourceRecord)
        → read id files ≡ some r
        → IsSourceRecord env id r
        → source_record_validate env q ≡ true
        → Moved r q
        → Outcome id files (q, false, write id q files)

  pub commit_source-Outcome :
      (id : Text) (files : Files SourceRecord) (r q : SourceRecord) {w : Written}
      → get_source env id files ≡ ok r
      → Moved r q
      → commit_source env id q files ≡ ok w
      → Outcome id files w
  commit_source-Outcome id files r q g m c =
      let (e, v) = commit_source-ok id q files c in
      let (found, kept) = get_source-IsSourceRecord id files g in
      subst (Outcome id files) (sym e) (moved r q found kept v m)

  pub replay-Outcome :
      (id : Text) (files : Files SourceRecord) (r : SourceRecord) {x : Result Error Written}
      {w : Written}
      → get_source env id files ≡ ok r
      → x ≡ ok (r, true, files)
      → x ≡ ok w
      → Outcome id files w
  replay-Outcome id files r g e h =
      let (found, kept) = get_source-IsSourceRecord id files g in
      subst (Outcome id files) (ok_unique e h) (replayed r found kept)
