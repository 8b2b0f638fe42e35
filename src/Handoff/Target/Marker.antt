-- ===== src/Handoff/Target/Marker.antt =====
-- AcknowledgeTarget of the target store, with the launch marker (internal/handoff/store.go and
-- internal/handoff/instructions.go).
use arcmux.Prelude.{
  Time, Bool, true, false, not, ◌&&◌, Option, none, some, List, [], ◌∷◌, ◌++◌, leb,
}
use arcmux.Prelude.Text.{Text, codes, text_eq}
use arcmux.Prelude.Results.{Result, ok, err, ◌>>=◌, ◌>>◌, guard, ok_or}
use arcmux.Handoff.Manifest.{Env, is_sha256_hex, drop_prefix}
use arcmux.Handoff.Record.{
  TargetLocator, ContextAcknowledgement, AcknowledgementPhase, TargetRecord, is_target_accepted,
}
use arcmux.Handoff.Record.Validate.{is_context_loaded, target_record_validate}
use arcmux.Handoff.Files.{Files, read, record_files}
use arcmux.Handoff.Store.{
  Error, target_not_accepted, acknowledgement_unavailable, refused, next_revision, time_or,
}
use arcmux.Handoff.Target.{Written, commit_target}

abbrev launch_marker_prefix : Text
launch_marker_prefix = codes "arcmux-handoff-v1:"

-- validLaunchMarker
unfoldable pub is_launch_marker : Text → Bool
is_launch_marker marker = elim (drop_prefix marker launch_marker_prefix) [
  | none ↦ false
  | some s ↦ is_sha256_hex s
]

module _ (env : Env) where
  -- LaunchMarker
  unfoldable pub launch_marker : Text → Text → Text
  launch_marker id digest =
      launch_marker_prefix
      ++ env.sha256_hex (codes "arcmux-handoff-prompt-v1" ++ 0 ∷ id ++ 0 ∷ digest)

  -- AcknowledgeTarget, on the record of the marker and its proof
  unfoldable pub acknowledge_over :
      Time
      → Time
      → AcknowledgementPhase
      → TargetRecord
      → TargetLocator
      → Option ContextAcknowledgement
      → Text
      → Files TargetRecord
      → Result Error Written
  unfolding commit_target
  acknowledge_over now at phase r l (some a) id files = ok (r, true, files)
  acknowledge_over now at phase r l none id files = do
    guard (leb r.updated (time_or at now)) refused
    commit_target env id
        (record r {
          context_loaded = some (record {
            phase = phase;
            manifest_digest = r.digest;
            target_locator = l;
            acknowledged_at = time_or at now;
          });
          revision = next_revision r.revision;
          updated = time_or at now;
        })
        files

  unfoldable pub acknowledge_record :
      Time
      → Time
      → AcknowledgementPhase
      → Text
      → Text
      → Text
      → TargetRecord
      → Files TargetRecord
      → Result Error Written
  unfolding acknowledge_over
  acknowledge_record now at phase scope session id r files = do
    guard (is_target_accepted r.state) target_not_accepted
    l ← ok_or target_not_accepted r.target_locator
    guard (text_eq l.profile_scope scope && text_eq l.session_id session)
        acknowledgement_unavailable
    acknowledge_over now at phase r l r.context_loaded id files

  -- A file of AcknowledgeTarget's loop
  unfoldable pub marker_record : Text → Files TargetRecord → Result Error TargetRecord
  marker_record id files = do
    r ← ok_or acknowledgement_unavailable (read id files)
    guard (target_record_validate env r) acknowledgement_unavailable
    guard (text_eq id r.manifest.handoff_id) acknowledgement_unavailable
    ok r

  -- The loop over the files, which ends at the first record of the marker
  unfoldable pub acknowledge_from :
      Time
      → Time
      → Text
      → AcknowledgementPhase
      → Text
      → Text
      → List Text
      → Files TargetRecord
      → Result Error Written
  unfolding marker_record acknowledge_record launch_marker
  acknowledge_from now at marker phase scope session [] files = err acknowledgement_unavailable
  acknowledge_from now at marker phase scope session (id ∷ ids) files = do
    r ← marker_record id files
    elim (text_eq (launch_marker r.manifest.handoff_id r.digest) marker) [
      | true ↦ acknowledge_record now at phase scope session id r files
      | false ↦ acknowledge_from now at marker phase scope session ids files
    ]

  unfoldable pub acknowledge_target :
      Time
      → Text
      → AcknowledgementPhase
      → Text
      → Text
      → Time
      → Files TargetRecord
      → Result Error Written
  unfolding acknowledge_from is_launch_marker
  acknowledge_target now marker phase scope session at files = do
    guard
        (is_launch_marker marker
          && (is_context_loaded phase && (not (text_eq scope []) && not (text_eq session []))))
        acknowledgement_unavailable
    acknowledge_from now at marker phase scope session (record_files files) files
