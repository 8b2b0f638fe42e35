-- ===== src/Handoff/Source/Lists.antt =====
-- The listings of the source store (internal/handoff/store.go).
use arcmux.Prelude.{
  Time, Bool, true, false, not, ◌&&◌, Option, none, some, List, [], ◌∷◌, leb, is_zero,
  if◌then◌else◌,
}
use arcmux.Prelude.Text.{Text, text_eq}
use arcmux.Prelude.Results.{Result, ok, ◌>>=◌, ◌>>◌, guard, ok_or}
use arcmux.Handoff.Manifest.{Env}
use arcmux.Handoff.Record.{
  SourceState, SourceRecord, SourceRetirement, queued, preparing_remote, launching_remote,
  source_retry_wait, launch_retry_wait, source_accepted, is_source_retry,
}
use arcmux.Handoff.Record.Validate.{source_record_validate}
use arcmux.Handoff.Files.{Files, read, record_files}
use arcmux.Handoff.Store.{Error, not_found, refused}
use arcmux.Handoff.Source.Proofs.{is_pending}

unfoldable pub is_due : Time → Option Time → Bool
is_due at none = false
is_due at (some t) = leb t at

unfoldable pub has_pending : Option SourceRetirement → Bool
has_pending none = false
has_pending (some t) = is_pending t.state

-- The switch of RunnableSource
unfoldable pub is_runnable : Time → SourceRecord → SourceState → Bool
unfolding is_due has_pending
is_runnable at r queued = true
is_runnable at r preparing_remote = true
is_runnable at r launching_remote = true
is_runnable at r source_retry_wait = is_due at r.next_retry
is_runnable at r launch_retry_wait = is_due at r.next_retry
is_runnable at r source_accepted = has_pending r.retirement
is_runnable at r _ = false

abbrev pub filter : (SourceRecord → Bool) → List SourceRecord → List SourceRecord
filter p [] = []
filter p (r ∷ rs) = let rest = filter p rs in if p r then r ∷ rest else rest

module _ (env : Env) where
  -- One file of ListSource
  unfoldable pub list_one : Files SourceRecord → Text → Result Error SourceRecord
  list_one files id = do
    r ← ok_or not_found (read id files)
    guard (source_record_validate env r) refused
    guard (text_eq id r.manifest.handoff_id) refused
    ok r

  unfoldable pub list_from : Files SourceRecord → List Text → Result Error (List SourceRecord)
  unfolding list_one
  list_from files [] = ok []
  list_from files (id ∷ ids) = do r ← list_one files id; rs ← list_from files ids; ok (r ∷ rs)

  unfoldable pub list_source : Files SourceRecord → Result Error (List SourceRecord)
  unfolding list_from
  list_source files = list_from files (record_files files)

  unfoldable pub due_source : Time → Files SourceRecord → Result Error (List SourceRecord)
  unfolding list_source is_due
  due_source at files = do
    guard (not (is_zero at)) refused
    rs ← list_source files
    ok (filter (λ r. is_source_retry r.state && is_due at r.next_retry) rs)

  unfoldable pub runnable_source : Time → Files SourceRecord → Result Error (List SourceRecord)
  unfolding list_source is_runnable
  runnable_source at files = do
    guard (not (is_zero at)) refused
    rs ← list_source files
    ok (filter (λ r. is_runnable at r r.state) rs)
