-- ===== src/Handoff/Source.antt =====
-- The source side of the handoff store (internal/handoff/store.go). Each method takes the clock's
-- reading and the files, and returns the record, whether it is a replay, and the files; an error
-- leaves the files as they were.
pub mod Proofs
pub mod Moves
pub mod Methods
pub mod Lists
pub mod Later
pub mod History
pub mod Conflicts
pub mod Retirements
use arcmux.Prelude.{
  Time, ℤ, pos, negsuc, sub_ℕ, ◌+◌, pos_part, leb_ℤ, ℕ, ◌/◌, ◌%◌, Bool, true, false, not, ◌&&◌,
  ◌||◌, Option, none, some, List, [], ◌∷◌, leb, ◌==◌, if◌then◌else◌, is_zero, second,
}
use arcmux.Prelude.Text.{Text, text_eq}
use arcmux.Prelude.Results.{Result, ok, err, ◌>>=◌, ◌>>◌, guard, ok_or}
use arcmux.Handoff.Manifest.{Env, Manifest, is_safe_id}
use arcmux.Handoff.Manifest.Validate.{digest_of}
use arcmux.Handoff.Record.{
  SourceState, TargetLocator, ContextAcknowledgement, RetirementMode, SourceRetirement,
  RetirementState, AcknowledgementPhase, context_loaded_phase, other_phase, SourceRecord,
  TurnObservation, Transition, queued, immediate, after_turn_end, other_mode, pending, retired,
  valid_source_state, is_source_accepted, is_source_failed, is_source_retry, is_preparing,
  legal_source_transition,
}
use arcmux.Handoff.Record.Validate.{
  acknowledgement_validate, locator_eq, known_mode, source_record_validate,
}
use arcmux.Handoff.Files.{Files, read, write}
use arcmux.Handoff.Store.{
  Error, not_found, manifest_conflict, cas_conflict, illegal_transition, target_not_accepted,
  context_not_loaded, refused, next_revision, next_attempt, time_or, apply_locator, apply_failure,
  apply_retry,
}

-- A record, whether it is a replay, and the files
abbrev pub Written : Type 0
Written = SourceRecord × Bool × Files SourceRecord

module _ (env : Env) where
  -- getSourceLocked, with validatePath
  unfoldable pub get_source : Text → Files SourceRecord → Result Error SourceRecord
  get_source id files = do
    guard (is_safe_id id) refused
    r ← ok_or not_found (read id files)
    guard (source_record_validate env r) refused
    guard (text_eq id r.manifest.handoff_id) refused
    ok r

  -- The validation and the write at the end of a method
  unfoldable pub commit_source : Text → SourceRecord → Files SourceRecord → Result Error Written
  commit_source id r files = do
    guard (source_record_validate env r) refused
    ok (r, false, write id r files)

  unfoldable pub new_source : Time → Manifest → Text → SourceRecord
  new_source now m digest = record {
    version = 1;
    manifest = m;
    digest = digest;
    state = queued;
    attempts = 0;
    next_retry = none;
    failure = none;
    target_locator = none;
    context_loaded = none;
    retirement = none;
    revision = 1;
    updated = now;
  }

  -- QueueSource, once the file is or is not there
  unfoldable pub queue_over :
      Time → Manifest → Text → Option SourceRecord → Files SourceRecord → Result Error Written
  unfolding commit_source new_source
  queue_over now m digest none files = commit_source m.handoff_id (new_source now m digest) files
  queue_over now m digest (some r) files = do
    guard (source_record_validate env r) refused
    guard (text_eq r.manifest.handoff_id m.handoff_id && text_eq r.digest digest) manifest_conflict
    ok (r, true, files)

  unfoldable pub queue_source : Time → Manifest → Files SourceRecord → Result Error Written
  unfolding queue_over
  queue_source now m files = do
    digest ← ok_or refused (digest_of env m)
    guard (is_safe_id m.handoff_id) refused
    queue_over now m digest (read m.handoff_id files) files

  unfoldable pub transition_source :
      Time → Text → ℕ → SourceState → Transition → Files SourceRecord → Result Error Written
  unfolding commit_source get_source
  transition_source now id expected next t files = do
    guard (valid_source_state next) refused
    r ← get_source id files
    guard (r.revision == expected) cas_conflict
    guard (legal_source_transition r.state next) illegal_transition
    guard (leb r.updated (time_or t.at now)) refused
    locator ← apply_locator (is_source_accepted next) t.target_locator r.target_locator
    commit_source id
        (record r {
          state = next;
          revision = next_revision r.revision;
          updated = time_or t.at now;
          next_retry = apply_retry (is_source_retry next) t.next_retry;
          failure = apply_failure (is_source_retry next) (is_source_failed next) t.failure;
          target_locator = locator;
          attempts = if is_preparing next then next_attempt r.attempts else r.attempts;
        })
        files
