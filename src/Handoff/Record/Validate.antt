-- ===== src/Handoff/Record/Validate.antt =====
-- The validation of the records (internal/handoff/record.go): the test that the method returns no
-- error.
use arcmux.Prelude.{
  Time, pos, leb_ℤ, ℕ, Bool, true, false, not, ◌&&◌, ◌||◌, Option, none, some, [], ◌∷◌, any, length,
  leb, ◌==◌, is_zero, after,
}
use arcmux.Prelude.Text.{Text, text_eq}
use arcmux.Handoff.Manifest.{Env, Manifest, is_safe_id, is_profile_scope}
use arcmux.Handoff.Manifest.Validate.{digest_of}
use arcmux.Handoff.Manifest.Fields.{mem}
use arcmux.Handoff.Record.{
  FailureCode, Failure, TargetLocator, AcknowledgementPhase, ContextAcknowledgement, RetirementMode,
  RetirementState, SourceRetirement, SourceRecord, TargetRecord, other_failure,
  context_loaded_phase, other_phase, other_mode, pending, retired, other_retirement,
  valid_source_state, valid_target_state, is_source_accepted, is_source_failed, is_source_retry,
  is_target_accepted, is_rejected, is_target_waiting, is_launch_phase,
}

-- TargetLocator.validate
unfoldable pub locator_validate : TargetLocator → Bool
locator_validate l =
    is_safe_id l.device_id && (is_profile_scope l.profile_scope && is_safe_id l.session_id)

-- l == m
unfoldable pub locator_eq : TargetLocator → TargetLocator → Bool
locator_eq l m =
    text_eq l.device_id m.device_id
    && (text_eq l.profile_scope m.profile_scope && text_eq l.session_id m.session_id)

unfoldable pub known_failure_code : FailureCode → Bool
known_failure_code (other_failure s) = false
known_failure_code _ = true

-- Failure.validate
unfoldable pub failure_validate : Failure → Bool
unfolding known_failure_code
failure_validate f =
    known_failure_code f.code
    && (leb (length f.message) 256
        && (not (any (λ c. mem c (13 ∷ 10 ∷ 0 ∷ [])) f.message) && not (is_zero f.at)))

unfoldable pub is_context_loaded : AcknowledgementPhase → Bool
is_context_loaded context_loaded_phase = true
is_context_loaded (other_phase s) = false

-- ContextAcknowledgement.validate
unfoldable pub acknowledgement_validate : ContextAcknowledgement → Text → TargetLocator → Bool
unfolding is_context_loaded locator_eq locator_validate
acknowledgement_validate a digest locator =
    is_context_loaded a.phase
    && (text_eq a.manifest_digest digest
        && (locator_eq a.target_locator locator
            && (not (is_zero a.acknowledged_at) && locator_validate a.target_locator)))

unfoldable pub known_mode : RetirementMode → Bool
known_mode (other_mode s) = false
known_mode _ = true

-- The last two checks of SourceRetirement.validate, with the check of the state.
unfoldable pub retired_at_validate : RetirementState → Option Time → Time → Bool
retired_at_validate pending none requested = true
retired_at_validate pending (some t) requested = false
retired_at_validate retired none requested = false
retired_at_validate retired (some t) requested = not (is_zero t) && leb requested t
retired_at_validate (other_retirement s) _ requested = false

-- SourceRetirement.validate
unfoldable pub retirement_validate : SourceRetirement → Bool
unfolding known_mode retired_at_validate
retirement_validate r =
    known_mode r.mode
    && (not (is_zero r.requested_at)
        && (leb_ℤ (pos 1) r.timeout_seconds
            && (leb_ℤ r.timeout_seconds (pos 300)
                && (leb_ℤ (pos 0) r.baseline_turn_count
                    && (elim r.baseline_last_turn_end_at [ none ↦ true | some t ↦ not (is_zero t) ]
                        && retired_at_validate r.state r.retired_at r.requested_at)))))

-- The retry fields of validateRecordFields
unfoldable pub retry_validate : Bool → Option Time → Option Failure → Time → Bool
retry_validate true (some t) (some f) updated = after t updated && f.retryable
retry_validate true _ _ updated = false
retry_validate false (some t) _ updated = false
retry_validate false none _ updated = true

-- The failure of validateRecordFields, where it is wanted and where it is allowed
unfoldable pub failure_field_validate : Bool → Bool → Option Failure → Time → Bool
unfolding failure_validate
failure_field_validate retry terminal_failure none updated = not terminal_failure
failure_field_validate retry terminal_failure (some f) updated =
    (retry || terminal_failure) && (failure_validate f && leb f.at updated)

-- The locator of validateRecordFields, on the device of the manifest's target
unfoldable pub locator_field_validate : Text → Bool → Bool → Option TargetLocator → Bool
unfolding locator_validate
locator_field_validate device allowed required none = not required
locator_field_validate device allowed required (some l) =
    allowed && (locator_validate l && text_eq l.device_id device)

-- validateRecordFields
unfoldable pub validate_record_fields :
    Text
    → Option Time
    → Option Failure
    → Option TargetLocator
    → ℕ
    → Time
    → Bool
    → Bool
    → Bool
    → Bool
    → Bool
unfolding retry_validate failure_field_validate locator_field_validate
validate_record_fields device next_retry failure locator revision updated retry terminal_failure
      allowed required =
    not (revision == 0)
    && (not (is_zero updated)
        && (retry_validate retry next_retry failure updated
            && (failure_field_validate retry terminal_failure failure updated
                && locator_field_validate device allowed required locator)))

-- The check of ContextLoaded, in a state that is or is not the accepted one
unfoldable pub context_loaded_validate :
    Option ContextAcknowledgement → Bool → Option TargetLocator → Text → Bool
unfolding acknowledgement_validate
context_loaded_validate none accepted locator digest = true
context_loaded_validate (some a) accepted none digest = false
context_loaded_validate (some a) accepted (some l) digest =
    accepted && acknowledgement_validate a digest l

-- The check of Retirement
unfoldable pub retirement_field_validate :
    Option SourceRetirement → Bool → Option ContextAcknowledgement → Bool
unfolding retirement_validate
retirement_field_validate none accepted ack = true
retirement_field_validate (some t) accepted none = false
retirement_field_validate (some t) accepted (some a) = accepted && retirement_validate t

module _ (env : Env) where
  -- validateStoredManifest
  unfoldable pub stored_manifest_validate : Manifest → Text → Bool
  stored_manifest_validate m digest = elim (digest_of env m) [
    | none ↦ false
    | some d ↦ text_eq digest d
  ]

  -- SourceRecord.validate
  unfoldable pub source_record_validate : SourceRecord → Bool
  unfolding stored_manifest_validate validate_record_fields context_loaded_validate
      retirement_field_validate
  source_record_validate r =
      r.version == 1
      && (stored_manifest_validate r.manifest r.digest
          && (valid_source_state r.state
              && (validate_record_fields r.manifest.target.device_id r.next_retry r.failure
                    r.target_locator r.revision r.updated (is_source_retry r.state)
                    (is_source_failed r.state) (is_source_accepted r.state)
                    (is_source_accepted r.state)
                  && (context_loaded_validate r.context_loaded (is_source_accepted r.state)
                        r.target_locator r.digest
                      && retirement_field_validate r.retirement (is_source_accepted r.state)
                          r.context_loaded))))

  -- TargetRecord.validate
  unfoldable pub target_record_validate : TargetRecord → Bool
  unfolding stored_manifest_validate validate_record_fields context_loaded_validate
  target_record_validate r =
      r.version == 1
      && (stored_manifest_validate r.manifest r.digest
          && (valid_target_state r.state
              && (validate_record_fields r.manifest.target.device_id r.next_retry r.failure
                    r.target_locator r.revision r.updated (is_target_waiting r.state)
                    (is_rejected r.state) (is_launch_phase r.state) (is_target_accepted r.state)
                  && context_loaded_validate r.context_loaded (is_target_accepted r.state)
                      r.target_locator r.digest)))
