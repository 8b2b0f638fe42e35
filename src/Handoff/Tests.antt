-- ===== src/Handoff/Tests.antt =====
-- The handoff's theorems at concrete inputs.
use arcmux.Prelude.{
  Time, ℕ, ℤ, pos, ◌+◌, ◌%◌, ◌*◌, ◌≡◌, ◌≢◌, refl, ap, arith, Bool, true, false, Option, none, some,
  List, [], ◌∷◌, ◌++◌, map, take, ltb, leb, ◌==◌, All, second,
}
use arcmux.Prelude.Text.{Text, codes, text_eq}
use arcmux.Prelude.Results.{ok, err}
use arcmux.Handoff.Manifest.{Env, Manifest, not_run, remote_branch, clean}
use arcmux.Handoff.Record.{
  SourceRecord, TargetRecord, TargetLocator, ContextAcknowledgement, Transition, Failure,
  TurnObservation, SourceRetirement, unavailable, source_retry_wait, queued, preparing_remote,
  remote_prepared, launching_remote, source_accepted, source_failed, context_loaded_phase,
  immediate, pending, target_accepted, launching,
}
use arcmux.Handoff.Files.{Files, read}
use arcmux.Handoff.Store.{cas_conflict}
use arcmux.Handoff.Source.{transition_source, queue_source, get_source}
use arcmux.Handoff.Source.Later.{IsKept}
use arcmux.Handoff.Source.Retirements.{IsProved, run_calls-IsProved}
use arcmux.Handoff.Outbox.{Peer, Detail, CallError}
use arcmux.Handoff.Outbox.Passes.{reconcile}
use arcmux.Handoff.Outbox.Recovery.{reconcile-remote_prepared}
use arcmux.Handoff.Outbox.Retire.{retire_pending, is_exited}
use arcmux.Handoff.Action.{State}
use arcmux.Handoff.Outbox.{record_dto}
use arcmux.Handoff.Outbox.Steps.{source_handoff_retry_delay}
use arcmux.Handoff.Outbox.Delays.{transition_retry-delay}
use arcmux.Handoff.Source.Lists.{is_runnable}
use arcmux.Handoff.Outbox.Exits.{IsLive, retire_pending-unchanged}
use arcmux.Handoff.Target.{get_target, record_target_launch_locator}
use arcmux.Handoff.Target.Locators.{rebound, unmoved, record_target_launch_locator-once}
use arcmux.Handoff.Target.Acknowledges.{IsAnswer, acknowledge_target-IsAnswer}
use arcmux.Handoff.Source.Conflicts.{transition_source-conflict}
use arcmux.Handoff.Source.History.{
  Call, queue, transition, context_loaded, request, run_calls, Follows, run_calls-Follows,
}

abbrev digit : ℕ → ℕ
digit c = b'0' + c % 10

abbrev zeros : ℕ → Text
zeros n = map (λ c. b'0') (codes "0000000000000000000000000000000000000000000000000000000000000000")

-- A stand-in for the digest that is computed: digits of the text, filled up to 64.
abbrev env : Env
env = record {
  is_control = λ c. ltb c 32;
  is_space = λ c. c == 32;
  marshal = λ m. m.trace_id;
  sha256_hex = λ t. take 64 (map digit t ++ zeros 0);
  contains_credential_like = λ t. false;
}

abbrev object : Text
object = codes "0123456789012345678901234567890123456789"

abbrev manifest : Manifest
manifest = record {
  schema_version = 1;
  handoff_id = codes "h1";
  trace_id = codes "t1";
  parent_handoff_id = [];
  source = record {
    device_id = codes "mac";
    profile_scope = codes "root";
    session_id = codes "s1";
  };
  source_agent = codes "claude";
  target = record { device_id = codes "vm"; profile = codes "codex" };
  goal = record { text = codes "ship"; provenance = codes "explicit_operator"; updated_at = 5 };
  history = record {
    artifact_id = codes "a1";
    basename = codes "log.jsonl";
    sha256 = zeros 0;
    size_bytes = pos 10;
    conversation_id = [];
  };
  repository = record {
    project_slug = codes "p";
    repo_slug = codes "o/r";
    branch = codes "main";
    source_head = object;
    base_commit = object;
    tree_digest = object;
    cleanliness = clean;
    transfer = remote_branch;
    patch = none;
  };
  artifacts = some [];
  validation = record { state = not_run; repository_revision = []; completed_at = none };
  created_at = 5;
}

abbrev plain : Time → Transition
plain at = record { at = at; next_retry = none; failure = none; target_locator = none }

abbrev locator : TargetLocator
locator = record { device_id = codes "vm"; profile_scope = codes "root"; session_id = codes "s9" }

abbrev start : SourceRecord
start = record {
  version = 1;
  manifest = manifest;
  digest = env.sha256_hex (codes "t1");
  state = queued;
  attempts = 0;
  next_retry = none;
  failure = none;
  target_locator = none;
  context_loaded = none;
  retirement = none;
  revision = 1;
  updated = 10;
}

abbrev files : Files SourceRecord
files = (codes "h1", start) ∷ []

abbrev preparing : SourceRecord
preparing = record start { state = preparing_remote; attempts = 1; revision = 2; updated = 20 }

transition_source-conflict_example :
    transition_source env 0 (codes "h1") 1 source_failed (plain 30) ((codes "h1", preparing) ∷ [])
    ≡ err cas_conflict
unfolding arcmux.Prelude.Text.text_eq arcmux.Prelude.Text.has_prefix arcmux.Prelude.Text.contains
    arcmux.Prelude.Text.trim_left arcmux.Prelude.Text.keep_right arcmux.Prelude.Text.trim_right
    arcmux.Prelude.Text.split arcmux.Handoff.Manifest.is_digit
    arcmux.Handoff.Manifest.is_lower_alnum arcmux.Handoff.Manifest.is_alnum
    arcmux.Handoff.Manifest.is_safe_char arcmux.Handoff.Manifest.is_safe_id
    arcmux.Handoff.Manifest.last_code arcmux.Handoff.Manifest.is_profile_name
    arcmux.Handoff.Manifest.drop_prefix arcmux.Handoff.Manifest.is_profile_scope
    arcmux.Handoff.Manifest.is_safe_word arcmux.Handoff.Manifest.is_repo_slug
    arcmux.Handoff.Manifest.is_lower_hex arcmux.Handoff.Manifest.is_object_id
    arcmux.Handoff.Manifest.is_sha256_hex arcmux.Handoff.Manifest.Fields.has_suffix
    arcmux.Handoff.Manifest.Fields.mem arcmux.Handoff.Manifest.Fields.last_of
    arcmux.Handoff.Manifest.Validate.digest_of arcmux.Handoff.Record.valid_source_state
    arcmux.Handoff.Record.valid_target_state arcmux.Handoff.Record.is_source_accepted
    arcmux.Handoff.Record.is_source_failed arcmux.Handoff.Record.is_source_retry
    arcmux.Handoff.Record.is_preparing arcmux.Handoff.Record.is_target_accepted
    arcmux.Handoff.Record.is_rejected arcmux.Handoff.Record.is_target_waiting
    arcmux.Handoff.Record.is_launch_phase arcmux.Handoff.Record.is_validating
    arcmux.Handoff.Record.legal_source_transition arcmux.Handoff.Record.Validate.retirement_validate
    arcmux.Handoff.Record.Validate.retry_validate
    arcmux.Handoff.Record.Validate.failure_field_validate
    arcmux.Handoff.Record.Validate.locator_field_validate
    arcmux.Handoff.Record.Validate.validate_record_fields
    arcmux.Handoff.Record.Validate.context_loaded_validate
    arcmux.Handoff.Record.Validate.retirement_field_validate
    arcmux.Handoff.Record.Validate.stored_manifest_validate
    arcmux.Handoff.Record.Validate.source_record_validate
    arcmux.Handoff.Record.Validate.target_record_validate arcmux.Handoff.Files.text_lt
    arcmux.Handoff.Files.read arcmux.Handoff.Files.write arcmux.Handoff.Files.record_files
    arcmux.Handoff.Store.next_revision arcmux.Handoff.Store.next_attempt
    arcmux.Handoff.Store.time_or arcmux.Handoff.Store.apply_locator
    arcmux.Handoff.Store.apply_failure arcmux.Handoff.Store.apply_retry
    arcmux.Handoff.Source.get_source arcmux.Handoff.Source.commit_source
    arcmux.Handoff.Source.new_source arcmux.Handoff.Source.queue_over
    arcmux.Handoff.Source.queue_source arcmux.Handoff.Source.transition_source
    arcmux.Handoff.Source.Proofs.mode_eq
transition_source-conflict_example =
    transition_source-conflict env 0 0 (codes "h1") 1 preparing_remote source_failed (plain 20)
      (plain 30) files ((codes "h1", preparing) ∷ []) preparing false refl refl

-- The same handoff for another source: its digest differs.
abbrev other : Manifest
other = record manifest { trace_id = codes "t2" }

abbrev queued_at : Time → SourceRecord
queued_at now = record start { updated = now }

abbrev launch_calls : List Call
launch_calls =
    transition 0 (codes "h1") 1 preparing_remote (plain 20)
    ∷ transition 0 (codes "h1") 2 remote_prepared (plain 30)
    ∷ transition 0 (codes "h1") 2 source_failed (plain 30)
    ∷ transition 0 (codes "h1") 3 launching_remote (plain 40)
    ∷ transition 0 (codes "h1") 4 source_accepted
        (record (plain 50) { target_locator = some locator })
    ∷ []

abbrev proof : ContextAcknowledgement
proof = record {
  phase = context_loaded_phase;
  manifest_digest = start.digest;
  target_locator = locator;
  acknowledged_at = 55;
}

abbrev retire_calls : List Call
retire_calls =
    queue 10 manifest ∷ launch_calls
    ++ context_loaded 0 (codes "h1") 5 proof 60
      ∷ request 0 (codes "h1") 6 immediate (pos (2 * second))
          (record { turn_count = pos 3; last_turn_end_at = none }) 70
      ∷ []

abbrev retirement : SourceRetirement
retirement = record {
  mode = immediate;
  state = pending;
  requested_at = 70;
  timeout_seconds = pos 2;
  baseline_turn_count = pos 3;
  baseline_last_turn_end_at = none;
  retired_at = none;
}

abbrev retiring : SourceRecord
retiring = record start {
  state = source_accepted;
  attempts = 1;
  target_locator = some locator;
  context_loaded = some proof;
  retirement = some retirement;
  revision = 7;
  updated = 70;
}

run_calls-Follows_example : Follows env (codes "h1") start (run_calls env launch_calls files)
unfolding arcmux.Prelude.Text.text_eq arcmux.Prelude.Text.contains arcmux.Prelude.Text.trim_left
    arcmux.Prelude.Text.trim_right arcmux.Prelude.Text.split arcmux.Handoff.Manifest.is_digit
    arcmux.Handoff.Manifest.is_safe_char arcmux.Handoff.Manifest.is_safe_id
    arcmux.Handoff.Manifest.drop_prefix arcmux.Handoff.Manifest.is_profile_scope
    arcmux.Handoff.Manifest.is_safe_word arcmux.Handoff.Manifest.is_repo_slug
    arcmux.Handoff.Manifest.is_lower_hex arcmux.Handoff.Manifest.is_object_id
    arcmux.Handoff.Manifest.is_sha256_hex arcmux.Handoff.Manifest.Fields.has_suffix
    arcmux.Handoff.Manifest.Validate.digest_of arcmux.Handoff.Record.valid_source_state
    arcmux.Handoff.Record.valid_target_state arcmux.Handoff.Record.is_source_accepted
    arcmux.Handoff.Record.is_source_failed arcmux.Handoff.Record.is_source_retry
    arcmux.Handoff.Record.Validate.stored_manifest_validate
    arcmux.Handoff.Record.Validate.source_record_validate arcmux.Handoff.Files.read
    arcmux.Handoff.Files.write arcmux.Handoff.Source.Later.IsKept arcmux.Handoff.Source.Later.Later
run_calls-Follows_example =
    run_calls-Follows env launch_calls (codes "h1") start files
      ((record { valid = refl; named = refl }, omega arith), tt) refl

run_calls-IsProved_example : IsProved retiring
unfolding arcmux.Prelude.Text.text_eq arcmux.Prelude.Text.has_prefix arcmux.Prelude.Text.contains
    arcmux.Prelude.Text.trim_left arcmux.Prelude.Text.keep_right arcmux.Prelude.Text.trim_right
    arcmux.Prelude.Text.split arcmux.Handoff.Manifest.is_digit
    arcmux.Handoff.Manifest.is_lower_alnum arcmux.Handoff.Manifest.is_alnum
    arcmux.Handoff.Manifest.is_safe_char arcmux.Handoff.Manifest.is_safe_id
    arcmux.Handoff.Manifest.last_code arcmux.Handoff.Manifest.is_profile_name
    arcmux.Handoff.Manifest.drop_prefix arcmux.Handoff.Manifest.is_profile_scope
    arcmux.Handoff.Manifest.is_safe_word arcmux.Handoff.Manifest.is_repo_slug
    arcmux.Handoff.Manifest.is_lower_hex arcmux.Handoff.Manifest.is_object_id
    arcmux.Handoff.Manifest.is_sha256_hex arcmux.Handoff.Manifest.Fields.has_suffix
    arcmux.Handoff.Manifest.Fields.mem arcmux.Handoff.Manifest.Fields.last_of
    arcmux.Handoff.Manifest.Validate.digest_of arcmux.Handoff.Record.valid_source_state
    arcmux.Handoff.Record.valid_target_state arcmux.Handoff.Record.is_source_accepted
    arcmux.Handoff.Record.is_source_failed arcmux.Handoff.Record.is_source_retry
    arcmux.Handoff.Record.is_preparing arcmux.Handoff.Record.is_target_accepted
    arcmux.Handoff.Record.legal_source_transition arcmux.Handoff.Record.Validate.retirement_validate
    arcmux.Handoff.Record.Validate.retry_validate
    arcmux.Handoff.Record.Validate.failure_field_validate
    arcmux.Handoff.Record.Validate.stored_manifest_validate
    arcmux.Handoff.Record.Validate.source_record_validate
    arcmux.Handoff.Record.Validate.target_record_validate arcmux.Handoff.Files.text_lt
    arcmux.Handoff.Files.read arcmux.Handoff.Files.write arcmux.Handoff.Files.record_files
    arcmux.Handoff.Store.next_revision arcmux.Handoff.Store.next_attempt
    arcmux.Handoff.Store.time_or arcmux.Handoff.Store.apply_locator
    arcmux.Handoff.Store.apply_failure arcmux.Handoff.Store.apply_retry
    arcmux.Handoff.Source.get_source arcmux.Handoff.Source.commit_source
    arcmux.Handoff.Source.new_source arcmux.Handoff.Source.queue_over
    arcmux.Handoff.Source.queue_source arcmux.Handoff.Source.transition_source
    arcmux.Handoff.Source.Proofs.mode_eq arcmux.Handoff.Source.Proofs.valid_timeout
    arcmux.Handoff.Source.Proofs.valid_observation arcmux.Handoff.Source.Proofs.record_proof
    arcmux.Handoff.Source.Proofs.record_source_context_loaded
    arcmux.Handoff.Source.Proofs.request_over arcmux.Handoff.Source.Proofs.request_source_retirement
    arcmux.Handoff.Source.Proofs.complete_over
    arcmux.Handoff.Source.Proofs.complete_source_retirement arcmux.Handoff.Source.Later.IsKept
    arcmux.Handoff.Source.Later.Later arcmux.Handoff.Source.History.call_id
    arcmux.Handoff.Source.History.answer arcmux.Handoff.Source.History.run_calls
run_calls-IsProved_example =
    run_calls-IsProved env retire_calls (codes "h1") retiring retirement refl refl

-- A target that answers nothing, and a catalog whose session is still working
abbrev working : Detail
working = record {
  profile_scope = codes "root";
  session_id = codes "s1";
  state = codes "working";
  turn = none;
}

abbrev down : CallError
down = record { rpc = none; method_not_registered = false }

abbrev peer : Peer ℕ
peer = record {
  device_id = codes "mac";
  now = λ w. (80, w + 1);
  store_now = λ w. 80;
  lookup_session = λ scope id w. (some working, w);
  call_prepare = λ device m w. (err down, w + 1);
  call_launch = λ device id digest w. (err down, w + 1);
  call_verify = λ device id digest l w. (err down, w + 1);
  close_source = λ source timeout w. (true, w + 1);
  valid_session_id = λ id. true;
  is_done = λ w. (false, w);
}

abbrev prepared_record : SourceRecord
prepared_record = record start { state = remote_prepared; attempts = 1; revision = 3; updated = 30 }

abbrev waiting : Files SourceRecord
waiting = (codes "h1", prepared_record) ∷ []

reconcile-remote_prepared_example :
    read (codes "h1") ((reconcile env peer 90 (record { files = waiting; world = 0 })).1.files)
    ≡ some prepared_record
unfolding read text_eq
reconcile-remote_prepared_example =
    reconcile-remote_prepared env peer 90 (codes "h1") prepared_record
      (record { files = waiting; world = 0 }) refl refl

retire_pending-unchanged_example :
    (retire_pending env peer retiring
      (record { files = (codes "h1", retiring) ∷ []; world = 0 })).1.files
    ≡ (codes "h1", retiring) ∷ []
unfolding IsLive is_exited text_eq
retire_pending-unchanged_example =
    retire_pending-unchanged env peer retiring (λ w. refl)
      (record { files = (codes "h1", retiring) ∷ []; world = 0 })

abbrev launching_record : TargetRecord
launching_record = record {
  version = 1;
  manifest = manifest;
  digest = start.digest;
  state = launching;
  attempts = 1;
  next_retry = none;
  failure = none;
  target_locator = none;
  context_loaded = none;
  revision = 4;
  updated = 40;
}

abbrev bound_record : TargetRecord
bound_record = record launching_record { target_locator = some locator; revision = 5; updated = 50 }

abbrev intruder : TargetLocator
intruder = record locator { session_id = codes "s8" }

abbrev bound_files : Files TargetRecord
bound_files = (codes "h1", bound_record) ∷ []

-- The binding is repeated, which is a replay, and then tried with another session.
record_target_launch_locator-once_example :
    record_target_launch_locator env 60 (codes "h1") 5 intruder 60 bound_files
    ≢ ok (bound_record, false, bound_files)
unfolding arcmux.Prelude.Text.text_eq arcmux.Prelude.Text.has_prefix arcmux.Prelude.Text.contains
    arcmux.Prelude.Text.trim_left arcmux.Prelude.Text.keep_right arcmux.Prelude.Text.trim_right
    arcmux.Prelude.Text.split arcmux.Handoff.Manifest.is_digit
    arcmux.Handoff.Manifest.is_lower_alnum arcmux.Handoff.Manifest.is_alnum
    arcmux.Handoff.Manifest.is_safe_char arcmux.Handoff.Manifest.is_safe_id
    arcmux.Handoff.Manifest.last_code arcmux.Handoff.Manifest.is_profile_name
    arcmux.Handoff.Manifest.drop_prefix arcmux.Handoff.Manifest.is_profile_scope
    arcmux.Handoff.Manifest.is_safe_word arcmux.Handoff.Manifest.is_repo_slug
    arcmux.Handoff.Manifest.is_lower_hex arcmux.Handoff.Manifest.is_object_id
    arcmux.Handoff.Manifest.is_sha256_hex arcmux.Handoff.Manifest.Fields.has_suffix
    arcmux.Handoff.Manifest.Fields.mem arcmux.Handoff.Manifest.Fields.last_of
    arcmux.Handoff.Manifest.Validate.digest_of arcmux.Handoff.Record.valid_source_state
    arcmux.Handoff.Record.valid_target_state arcmux.Handoff.Record.is_source_accepted
    arcmux.Handoff.Record.is_source_failed arcmux.Handoff.Record.is_source_retry
    arcmux.Handoff.Record.is_preparing arcmux.Handoff.Record.is_target_accepted
    arcmux.Handoff.Record.is_rejected arcmux.Handoff.Record.is_target_waiting
    arcmux.Handoff.Record.is_launch_phase arcmux.Handoff.Record.is_validating
    arcmux.Handoff.Record.legal_source_transition
    arcmux.Handoff.Record.Validate.target_record_validate arcmux.Handoff.Files.text_lt
    arcmux.Handoff.Files.read arcmux.Handoff.Files.write arcmux.Handoff.Files.record_files
    arcmux.Handoff.Store.next_revision arcmux.Handoff.Store.next_attempt
    arcmux.Handoff.Store.time_or arcmux.Handoff.Store.apply_locator
    arcmux.Handoff.Store.apply_failure arcmux.Handoff.Store.apply_retry
    arcmux.Handoff.Target.is_target_launching arcmux.Handoff.Target.get_target
    arcmux.Handoff.Target.commit_target arcmux.Handoff.Target.new_target
    arcmux.Handoff.Target.record_target_launch_locator arcmux.Handoff.Target.Marker.is_launch_marker
    arcmux.Handoff.Target.Marker.launch_marker arcmux.Handoff.Target.Marker.acknowledge_over
record_target_launch_locator-once_example =
    record_target_launch_locator-once env (codes "h1") locator intruder 50 50 60 60 4 5
      ((codes "h1", launching_record) ∷ []) bound_files bound_files bound_record false
      (bound_record, false, bound_files) refl (rebound 55 (codes "h1") 5 locator 55 unmoved refl)
      (λ h.
        let k : true ≡ false = ap (λ (x : TargetLocator). text_eq x.session_id (codes "s8")) h in
        cc)

abbrev accepted_record : TargetRecord
accepted_record = record bound_record { state = target_accepted; revision = 6; updated = 60 }

abbrev acknowledged_record : TargetRecord
acknowledged_record = record accepted_record {
  context_loaded = some (record proof { acknowledged_at = 70 });
  revision = 7;
  updated = 70;
}

abbrev marker : Text
marker =
    codes "arcmux-handoff-v1:"
    ++ env.sha256_hex (codes "arcmux-handoff-prompt-v1" ++ 0 ∷ codes "h1" ++ 0 ∷ start.digest)

acknowledge_target-IsAnswer_example :
    IsAnswer env marker
      (codes "root")
      (codes "s9")
      (acknowledged_record, false, (codes "h1", acknowledged_record) ∷ [])
unfolding arcmux.Prelude.Text.text_eq arcmux.Prelude.Text.has_prefix arcmux.Prelude.Text.contains
    arcmux.Prelude.Text.trim_left arcmux.Prelude.Text.keep_right arcmux.Prelude.Text.trim_right
    arcmux.Prelude.Text.split arcmux.Handoff.Manifest.is_digit arcmux.Handoff.Manifest.is_safe_char
    arcmux.Handoff.Manifest.is_safe_id arcmux.Handoff.Manifest.last_code
    arcmux.Handoff.Manifest.is_profile_name arcmux.Handoff.Manifest.drop_prefix
    arcmux.Handoff.Manifest.is_profile_scope arcmux.Handoff.Manifest.is_safe_word
    arcmux.Handoff.Manifest.is_repo_slug arcmux.Handoff.Manifest.is_lower_hex
    arcmux.Handoff.Manifest.is_object_id arcmux.Handoff.Manifest.is_sha256_hex
    arcmux.Handoff.Manifest.Fields.has_suffix arcmux.Handoff.Manifest.Fields.mem
    arcmux.Handoff.Manifest.Fields.last_of arcmux.Handoff.Manifest.Validate.digest_of
    arcmux.Handoff.Record.valid_source_state arcmux.Handoff.Record.valid_target_state
    arcmux.Handoff.Record.is_source_accepted arcmux.Handoff.Record.is_source_failed
    arcmux.Handoff.Record.is_source_retry arcmux.Handoff.Record.is_preparing
    arcmux.Handoff.Record.is_target_accepted arcmux.Handoff.Record.is_rejected
    arcmux.Handoff.Record.is_target_waiting arcmux.Handoff.Record.is_launch_phase
    arcmux.Handoff.Record.is_validating arcmux.Handoff.Record.legal_source_transition
    arcmux.Handoff.Record.Validate.target_record_validate arcmux.Handoff.Files.text_lt
    arcmux.Handoff.Files.read arcmux.Handoff.Files.write arcmux.Handoff.Files.record_files
    arcmux.Handoff.Store.next_revision arcmux.Handoff.Store.next_attempt
    arcmux.Handoff.Store.time_or arcmux.Handoff.Store.apply_locator arcmux.Handoff.Target.bind_over
    arcmux.Handoff.Target.record_target_launch_locator arcmux.Handoff.Target.Marker.marker_record
    arcmux.Handoff.Target.Marker.acknowledge_from arcmux.Handoff.Target.Marker.acknowledge_target
acknowledge_target-IsAnswer_example =
    acknowledge_target-IsAnswer env 70 70 marker context_loaded_phase (codes "root") (codes "s9")
      ((codes "h1", accepted_record) ∷ [])
      (acknowledged_record, false, (codes "h1", acknowledged_record) ∷ []) refl

abbrev unreachable : Failure
unreachable = record {
  code = unavailable;
  message = codes "target peer is down";
  retryable = true;
  at = 0;
}

abbrev put_off : SourceRecord
put_off = record preparing {
  state = source_retry_wait;
  next_retry = some (80 + 15 * second);
  failure = some (record unreachable { at = 80 });
  revision = 3;
  updated = 80;
}

abbrev after_failure : State ℕ
after_failure = record { files = (codes "h1", put_off) ∷ []; world = 1 }

transition_retry-delay_example :
    (q : SourceRecord) × (read (codes "h1") after_failure.files ≡ some q)
    × (q.state ≡ source_retry_wait)
    × (is_runnable 90 q q.state ≡ leb (q.updated + source_handoff_retry_delay) 90)
unfolding arcmux.Prelude.Text.text_eq arcmux.Prelude.Text.has_prefix arcmux.Prelude.Text.contains
    arcmux.Prelude.Text.trim_left arcmux.Prelude.Text.keep_right arcmux.Prelude.Text.trim_right
    arcmux.Prelude.Text.split arcmux.Handoff.Manifest.is_digit
    arcmux.Handoff.Manifest.is_lower_alnum arcmux.Handoff.Manifest.is_alnum
    arcmux.Handoff.Manifest.is_safe_char arcmux.Handoff.Manifest.is_safe_id
    arcmux.Handoff.Manifest.last_code arcmux.Handoff.Manifest.is_profile_name
    arcmux.Handoff.Manifest.drop_prefix arcmux.Handoff.Manifest.is_profile_scope
    arcmux.Handoff.Manifest.is_safe_word arcmux.Handoff.Manifest.is_repo_slug
    arcmux.Handoff.Manifest.is_lower_hex arcmux.Handoff.Manifest.is_object_id
    arcmux.Handoff.Manifest.is_sha256_hex arcmux.Handoff.Manifest.Fields.has_suffix
    arcmux.Handoff.Manifest.Fields.mem arcmux.Handoff.Manifest.Fields.last_of
    arcmux.Handoff.Manifest.Validate.digest_of arcmux.Handoff.Record.valid_source_state
    arcmux.Handoff.Record.valid_target_state arcmux.Handoff.Record.is_source_accepted
    arcmux.Handoff.Record.is_source_failed arcmux.Handoff.Record.is_source_retry
    arcmux.Handoff.Record.is_preparing arcmux.Handoff.Record.is_target_accepted
    arcmux.Handoff.Record.is_rejected arcmux.Handoff.Record.is_target_waiting
    arcmux.Handoff.Record.is_launch_phase arcmux.Handoff.Record.is_validating
    arcmux.Handoff.Record.legal_source_transition arcmux.Handoff.Record.Validate.retirement_validate
    arcmux.Handoff.Record.Validate.retry_validate
    arcmux.Handoff.Record.Validate.failure_field_validate
    arcmux.Handoff.Record.Validate.locator_field_validate
    arcmux.Handoff.Record.Validate.validate_record_fields
    arcmux.Handoff.Record.Validate.context_loaded_validate
    arcmux.Handoff.Record.Validate.retirement_field_validate
    arcmux.Handoff.Record.Validate.stored_manifest_validate
    arcmux.Handoff.Record.Validate.source_record_validate
    arcmux.Handoff.Record.Validate.target_record_validate arcmux.Handoff.Files.text_lt
    arcmux.Handoff.Files.read arcmux.Handoff.Files.write arcmux.Handoff.Files.record_files
    arcmux.Handoff.Store.next_revision arcmux.Handoff.Store.next_attempt
    arcmux.Handoff.Store.time_or arcmux.Handoff.Store.apply_locator
    arcmux.Handoff.Store.apply_failure arcmux.Handoff.Store.apply_retry
    arcmux.Handoff.Source.get_source arcmux.Handoff.Source.commit_source
    arcmux.Handoff.Source.new_source arcmux.Handoff.Source.queue_over
    arcmux.Handoff.Source.queue_source arcmux.Handoff.Source.transition_source
    arcmux.Handoff.Source.Proofs.mode_eq arcmux.Handoff.Action.◌>>=◌ arcmux.Handoff.Action.Answers
    arcmux.Handoff.Outbox.verification_of arcmux.Handoff.Outbox.record_dto
    arcmux.Handoff.Outbox.unregistered_or arcmux.Handoff.Outbox.source_call_failure
    arcmux.Handoff.Outbox.source_launch_call_failure arcmux.Handoff.Outbox.Steps.reported_code
    arcmux.Handoff.Outbox.Steps.read_record arcmux.Handoff.Outbox.Steps.transition
    arcmux.Handoff.Outbox.Steps.source_transition_time arcmux.Handoff.Outbox.Steps.transition_to
    arcmux.Handoff.Outbox.Steps.transition_retry arcmux.Handoff.Outbox.Steps.transition_launch_retry
    arcmux.Handoff.Outbox.Steps.transition_failed arcmux.Handoff.Outbox.Steps.enter
    arcmux.Handoff.Outbox.Steps.is_early arcmux.Handoff.Record.Validate.known_failure_code
    arcmux.Handoff.Record.Validate.failure_validate
transition_retry-delay_example =
    transition_retry-delay env peer preparing unreachable
      (record { files = (codes "h1", preparing) ∷ []; world = 0 }) after_failure
      (record_dto put_off) 90 refl refl
