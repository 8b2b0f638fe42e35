-- ===== src/Handoff/Source/Proofs.antt =====
-- The source store past the launch: RecordSourceContextLoaded, RequestSourceRetirement and
-- CompleteSourceRetirement (internal/handoff/store.go).
use arcmux.Prelude.{
  Time, ℤ, pos, negsuc, sub_ℕ, ◌+◌, pos_part, leb_ℤ, ℕ, ◌/◌, ◌%◌, Bool, true, false, not, ◌&&◌,
  Option, none, some, leb, ◌==◌, if◌then◌else◌, is_zero, second,
}
use arcmux.Prelude.Text.{Text, text_eq}
use arcmux.Prelude.Results.{Result, ok, ◌>>=◌, ◌>>◌, guard, ok_or}
use arcmux.Handoff.Manifest.{Env}
use arcmux.Handoff.Record.{
  ContextAcknowledgement, RetirementMode, SourceRetirement, RetirementState, AcknowledgementPhase,
  context_loaded_phase, other_phase, SourceRecord, TurnObservation, immediate, after_turn_end,
  other_mode, pending, retired, is_source_accepted,
}
use arcmux.Handoff.Record.Validate.{acknowledgement_validate, locator_eq, known_mode}
use arcmux.Handoff.Files.{Files}
use arcmux.Handoff.Store.{
  Error, manifest_conflict, cas_conflict, target_not_accepted, context_not_loaded, refused,
  next_revision, time_or,
}
use arcmux.Handoff.Source.{Written, get_source, commit_source}

unfoldable pub mode_eq : RetirementMode → RetirementMode → Bool
mode_eq immediate immediate = true
mode_eq after_turn_end after_turn_end = true
mode_eq (other_mode s) (other_mode t) = text_eq s t
mode_eq _ _ = false

unfoldable pub is_retired : RetirementState → Bool
is_retired retired = true
is_retired _ = false

unfoldable pub is_pending : RetirementState → Bool
is_pending pending = true
is_pending _ = false

unfoldable pub phase_eq : AcknowledgementPhase → AcknowledgementPhase → Bool
phase_eq context_loaded_phase context_loaded_phase = true
phase_eq (other_phase s) (other_phase t) = text_eq s t
phase_eq _ _ = false

abbrev pub eq_ℤ : ℤ → ℤ → Bool
eq_ℤ a b = leb_ℤ a b && leb_ℤ b a

abbrev pub is_some {ℓ} : {A : Type ℓ} → Option A → Bool
is_some none = false
is_some (some a) = true

-- a == b
unfoldable pub acknowledgement_eq : ContextAcknowledgement → ContextAcknowledgement → Bool
unfolding phase_eq
acknowledgement_eq a b =
    phase_eq a.phase b.phase
    && (text_eq a.manifest_digest b.manifest_digest
        && (locator_eq a.target_locator b.target_locator && a.acknowledged_at == b.acknowledged_at))

-- int64(timeout / time.Second), which rounds towards zero
abbrev pub seconds_of : ℤ → ℤ
seconds_of (pos n) = pos (n / second)
seconds_of (negsuc n) = sub_ℕ 0 ((n + 1) / second)

-- The check of a timeout: whole seconds between one second and five minutes
unfoldable pub valid_timeout : ℤ → Bool
valid_timeout timeout =
    leb_ℤ (pos second) timeout
    && (leb_ℤ timeout (pos 300_000_000_000) && pos_part timeout % second == 0)

unfoldable pub valid_observation : TurnObservation → Bool
valid_observation o =
    leb_ℤ (pos 0) o.turn_count && elim o.last_turn_end_at [ none ↦ true | some t ↦ not (is_zero t) ]

module _ (env : Env) where
  -- RecordSourceContextLoaded, past the check of the proof
  unfoldable pub record_proof :
      Time
      → Text
      → ℕ
      → ContextAcknowledgement
      → Time
      → SourceRecord
      → Option ContextAcknowledgement
      → Files SourceRecord
      → Result Error Written
  unfolding commit_source
  record_proof now id expected a at r (some b) files = do
    guard (acknowledgement_eq b a) manifest_conflict
    ok (r, true, files)
  record_proof now id expected a at r none files = do
    guard (r.revision == expected) cas_conflict
    guard (leb r.updated (time_or at now)) refused
    commit_source env id
        (record r {
          context_loaded = some a;
          revision = next_revision r.revision;
          updated = time_or at now;
        })
        files

  unfoldable pub record_source_context_loaded :
      Time → Text → ℕ → ContextAcknowledgement → Time → Files SourceRecord → Result Error Written
  unfolding get_source record_proof
  record_source_context_loaded now id expected a at files = do
    r ← get_source env id files
    guard (is_source_accepted r.state) target_not_accepted
    l ← ok_or target_not_accepted r.target_locator
    guard (acknowledgement_validate a r.digest l) manifest_conflict
    record_proof now id expected a at r r.context_loaded files

  -- RequestSourceRetirement, past the check of the record
  unfoldable pub request_over :
      Time
      → Text
      → ℕ
      → RetirementMode
      → ℤ
      → TurnObservation
      → Time
      → SourceRecord
      → Option SourceRetirement
      → Files SourceRecord
      → Result Error Written
  unfolding commit_source mode_eq
  request_over now id expected mode timeout baseline at r (some t) files = do
    guard (mode_eq t.mode mode && eq_ℤ t.timeout_seconds (seconds_of timeout)) manifest_conflict
    ok (r, true, files)
  request_over now id expected mode timeout baseline at r none files = do
    guard (r.revision == expected) cas_conflict
    guard (leb r.updated (time_or at now)) refused
    commit_source env id
        (record r {
          retirement = some (record {
            mode = mode;
            state = pending;
            requested_at = time_or at now;
            timeout_seconds = seconds_of timeout;
            baseline_turn_count = baseline.turn_count;
            baseline_last_turn_end_at = baseline.last_turn_end_at;
            retired_at = none;
          });
          revision = next_revision r.revision;
          updated = time_or at now;
        })
        files

  unfoldable pub request_source_retirement :
      Time
      → Text
      → ℕ
      → RetirementMode
      → ℤ
      → TurnObservation
      → Time
      → Files SourceRecord
      → Result Error Written
  unfolding get_source request_over valid_timeout valid_observation
  request_source_retirement now id expected mode timeout baseline at files = do
    guard (known_mode mode) refused
    guard (valid_timeout timeout) refused
    guard (valid_observation baseline) refused
    r ← get_source env id files
    guard (is_source_accepted r.state && is_some r.context_loaded) context_not_loaded
    request_over now id expected mode timeout baseline at r r.retirement files

  -- CompleteSourceRetirement, on the retirement of the record
  unfoldable pub complete_over :
      Time
      → Text
      → ℕ
      → Time
      → SourceRecord
      → SourceRetirement
      → Files SourceRecord
      → Result Error Written
  unfolding commit_source is_retired
  complete_over now id expected at r t files =
      if is_retired t.state then ok (r, true, files) else do
        guard (r.revision == expected) cas_conflict
        guard (leb r.updated (time_or at now) && leb t.requested_at (time_or at now)) refused
        commit_source env id
            (record r {
              retirement = some (record t { state = retired; retired_at = some (time_or at now) });
              revision = next_revision r.revision;
              updated = time_or at now;
            })
            files

  unfoldable pub complete_source_retirement :
      Time → Text → ℕ → Time → Files SourceRecord → Result Error Written
  unfolding get_source complete_over
  complete_source_retirement now id expected at files = do
    r ← get_source env id files
    t ← ok_or context_not_loaded r.retirement
    complete_over now id expected at r t files
