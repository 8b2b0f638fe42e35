-- ===== src/Handoff/Target.antt =====
-- The target side of the handoff store (internal/handoff/store.go). As on the source side, an error leaves the files as they were.
pub mod Marker
pub mod Lists
pub mod Bindings
pub mod Locators
pub mod Acknowledges
use arcmux.Prelude.{
  Time, ℕ, Bool, true, false, not, ◌&&◌, ◌||◌, Option, none, some, List, [], ◌∷◌, ◌++◌, all, length,
  leb, ◌==◌, if◌then◌else◌, is_zero,
}
use arcmux.Prelude.Text.{Text, codes, text_eq}
use arcmux.Prelude.Results.{Result, ok, err, ◌>>=◌, ◌>>◌, guard, ok_or}
use arcmux.Handoff.Manifest.{Env, Manifest, is_safe_id, is_sha256_hex, drop_prefix}
use arcmux.Handoff.Manifest.Validate.{digest_of}
use arcmux.Handoff.Record.{
  TargetState, TargetLocator, ContextAcknowledgement, AcknowledgementPhase, TargetRecord,
  Transition, received, launching, valid_target_state, is_target_accepted, is_rejected,
  is_target_waiting, is_launch_phase, is_validating, legal_target_transition,
}
use arcmux.Handoff.Record.Validate.{
  locator_validate, locator_eq, is_context_loaded, target_record_validate,
}
use arcmux.Handoff.Files.{Files, read, write, record_files}
use arcmux.Handoff.Store.{
  Error, not_found, manifest_conflict, cas_conflict, illegal_transition, target_not_accepted,
  acknowledgement_unavailable, refused, next_revision, next_attempt, time_or, apply_locator,
  apply_failure, apply_retry,
}

-- A record, whether it is a replay, and the files
abbrev pub Written : Type 0
Written = TargetRecord × Bool × Files TargetRecord

unfoldable pub is_target_launching : TargetState → Bool
is_target_launching launching = true
is_target_launching _ = false

module _ (env : Env) where
  -- getTargetLocked, with validatePath
  unfoldable pub get_target : Text → Files TargetRecord → Result Error TargetRecord
  get_target id files = do
    guard (is_safe_id id) refused
    r ← ok_or not_found (read id files)
    guard (target_record_validate env r) refused
    guard (text_eq id r.manifest.handoff_id) refused
    ok r

  -- The validation and the write at the end of a method
  unfoldable pub commit_target : Text → TargetRecord → Files TargetRecord → Result Error Written
  commit_target id r files = do
    guard (target_record_validate env r) refused
    ok (r, false, write id r files)

  unfoldable pub new_target : Time → Manifest → Text → TargetRecord
  new_target now m digest = record {
    version = 1;
    manifest = m;
    digest = digest;
    state = received;
    attempts = 0;
    next_retry = none;
    failure = none;
    target_locator = none;
    context_loaded = none;
    revision = 1;
    updated = now;
  }

  -- ReceiveTarget, once the file is or is not there
  unfoldable pub receive_over :
      Time → Manifest → Text → Option TargetRecord → Files TargetRecord → Result Error Written
  unfolding commit_target new_target
  receive_over now m digest none files = commit_target m.handoff_id (new_target now m digest) files
  receive_over now m digest (some r) files = do
    guard (target_record_validate env r) refused
    guard (text_eq r.manifest.handoff_id m.handoff_id && text_eq r.digest digest) manifest_conflict
    ok (r, true, files)

  unfoldable pub receive_target : Time → Manifest → Files TargetRecord → Result Error Written
  unfolding receive_over
  receive_target now m files = do
    digest ← ok_or refused (digest_of env m)
    guard (is_safe_id m.handoff_id) refused
    receive_over now m digest (read m.handoff_id files) files

  unfoldable pub transition_target :
      Time → Text → ℕ → TargetState → Transition → Files TargetRecord → Result Error Written
  unfolding commit_target get_target
  transition_target now id expected next t files = do
    guard (valid_target_state next) refused
    r ← get_target id files
    guard (r.revision == expected) cas_conflict
    guard (legal_target_transition r.state next) illegal_transition
    guard (leb r.updated (time_or t.at now)) refused
    locator ← apply_locator (is_launch_phase next) t.target_locator r.target_locator
    commit_target id
        (record r {
          state = next;
          revision = next_revision r.revision;
          updated = time_or t.at now;
          next_retry = apply_retry (is_target_waiting next) t.next_retry;
          failure = apply_failure (is_target_waiting next) (is_rejected next) t.failure;
          target_locator = locator;
          attempts = if is_validating next then next_attempt r.attempts else r.attempts;
        })
        files

  -- RecordTargetLaunchLocator, on the locator that the record has
  unfoldable pub bind_over :
      Time
      → Text
      → TargetLocator
      → Time
      → TargetRecord
      → Option TargetLocator
      → Files TargetRecord
      → Result Error Written
  unfolding commit_target
  bind_over now id l at r (some bound) files = do
    guard (locator_eq bound l) manifest_conflict
    ok (r, true, files)
  bind_over now id l at r none files = do
    guard (leb r.updated (time_or at now)) refused
    commit_target id
        (record r {
          target_locator = some l;
          revision = next_revision r.revision;
          updated = time_or at now;
        })
        files

  unfoldable pub record_target_launch_locator :
      Time → Text → ℕ → TargetLocator → Time → Files TargetRecord → Result Error Written
  unfolding get_target bind_over
  record_target_launch_locator now id expected l at files = do
    guard (locator_validate l) refused
    r ← get_target id files
    guard (r.revision == expected) cas_conflict
    guard (is_target_launching r.state) illegal_transition
    guard (text_eq l.device_id r.manifest.target.device_id) refused
    bind_over now id l at r r.target_locator files
