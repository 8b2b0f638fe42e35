-- ===== src/Handoff/Target/Lists.antt =====
-- The listings of the target store (internal/handoff/store.go).
use arcmux.Prelude.{Time, Bool, true, false, not, ◌&&◌, List, [], ◌∷◌, is_zero, if◌then◌else◌}
use arcmux.Prelude.Text.{Text, text_eq}
use arcmux.Prelude.Results.{Result, ok, ◌>>=◌, ◌>>◌, guard, ok_or}
use arcmux.Handoff.Manifest.{Env}
use arcmux.Handoff.Record.{
  TargetState, TargetRecord, received, validating, launching, waiting_assets, launch_waiting_assets,
  is_target_waiting,
}
use arcmux.Handoff.Record.Validate.{target_record_validate}
use arcmux.Handoff.Files.{Files, read, record_files}
use arcmux.Handoff.Store.{Error, not_found, refused}
use arcmux.Handoff.Source.Lists.{is_due}

-- The switch of RecoverableTarget
unfoldable pub is_recoverable : Time → TargetRecord → TargetState → Bool
is_recoverable at r received = true
is_recoverable at r validating = true
is_recoverable at r launching = true
is_recoverable at r waiting_assets = is_due at r.next_retry
is_recoverable at r launch_waiting_assets = is_due at r.next_retry
is_recoverable at r _ = false

abbrev filter_targets : (TargetRecord → Bool) → List TargetRecord → List TargetRecord
filter_targets p [] = []
filter_targets p (r ∷ rs) = let rest = filter_targets p rs in if p r then r ∷ rest else rest

module _ (env : Env) where
  -- One file of ListTarget
  unfoldable pub list_one_target : Files TargetRecord → Text → Result Error TargetRecord
  list_one_target files id = do
    r ← ok_or not_found (read id files)
    guard (target_record_validate env r) refused
    guard (text_eq id r.manifest.handoff_id) refused
    ok r

  unfoldable pub list_targets_from :
      Files TargetRecord → List Text → Result Error (List TargetRecord)
  unfolding list_one_target
  list_targets_from files [] = ok []
  list_targets_from files (id ∷ ids) = do
    r ← list_one_target files id
    rs ← list_targets_from files ids
    ok (r ∷ rs)

  unfoldable pub list_target : Files TargetRecord → Result Error (List TargetRecord)
  unfolding list_targets_from
  list_target files = list_targets_from files (record_files files)

  unfoldable pub due_target : Time → Files TargetRecord → Result Error (List TargetRecord)
  unfolding list_target
  due_target at files = do
    guard (not (is_zero at)) refused
    rs ← list_target files
    ok (filter_targets (λ r. is_target_waiting r.state && is_due at r.next_retry) rs)

  unfoldable pub recoverable_target : Time → Files TargetRecord → Result Error (List TargetRecord)
  unfolding list_target is_recoverable
  recoverable_target at files = do
    guard (not (is_zero at)) refused
    rs ← list_target files
    ok (filter_targets (λ r. is_recoverable at r r.state) rs)
