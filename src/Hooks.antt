-- ===== src/Hooks.antt =====
-- The cached hook state of a session and its locked writers, internal/hooks/sessionstate.go. A
-- session's file is a `Document`; the lock makes the writers of one session a sequence, and
-- `encoding/json` reads back what it wrote. Failures of the file system are not modelled: they
-- return before the rename, so they leave the file as it was.
pub mod Contract
pub mod Store
pub mod Writes
pub mod Histories
pub mod Goals
mod Tests
use arcmux.Prelude.{
  Time, ℕ, ◌+◌, ◌^◌, ◌-◌, String, str_eq, Bool, true, false, ◌&&◌, ◌||◌, not, Option, some, none,
  List, [], ◌∷◌, all, leb, ltb, ◌==◌, is_zero, if◌then◌else◌,
}
use arcmux.Prelude.Text.{Text, codes, text_eq}
use Store.{
  Document, Error, Event, Result, SessionState, canonical_event, commit, err, goal_required,
  invalid_session_id, is_session_id, max_uint64, mutate_session_state, mutate_session_state_checked,
  notification, ok, prompt_submit, read_state, revision_exhausted, snapshot_required, stale_goal,
  unverified_history, tool_end, tool_start, turn_end, unknown_event, zero_state, ◌>>=◌,
}
use Contract.{
  TurnContract, TurnContractUpdate, CanonicalHistoryBinding, summarizer_provenance,
  history_provenance, contract_or_empty, compact_contract_text, apply_turn_contract_update,
}

-- The first assignments of every writer.
unfoldable pub identify : String → String → Time → SessionState → SessionState
identify session_id agent now st = record st {
  session_id = session_id;
  agent = if str_eq agent "" then st.agent else agent;
  created_at = if is_zero st.created_at then now else st.created_at;
}

unfoldable pub seed_goal : Text → Time → TurnContract → TurnContract
seed_goal launch_goal now c =
    if text_eq c.overall_goal []
    then record c {
      overall_goal = launch_goal;
      overall_goal_provenance = [];
      overall_goal_updated_at = now;
    }
    else c

-- The `switch event` of ApplyEventWithContract
unfoldable pub record_event : Event → String → Time → SessionState → SessionState
record_event prompt_submit tool now st = record st {
  working = true;
  turn_count = st.turn_count + 1;
  last_prompt_submit_at = now;
}
record_event tool_start tool now st = record st {
  working = true;
  last_tool = if str_eq tool "" then st.last_tool else tool;
}
record_event tool_end tool now st = record st {
  working = true;
  last_tool = if str_eq tool "" then st.last_tool else tool;
}
record_event turn_end tool now st = record st { working = false; last_turn_end_at = now }
record_event notification tool now st = st

pub record OverallGoalInputSnapshot : Type 0 where
  pub revision : ℕ
  pub session_id : String
  pub agent : String
  pub turn_count : ℕ
  pub last_turn_end_at : Time
  pub goal : Text
  pub overall_goal : Text
  pub overall_goal_provenance : Text
  pub overall_goal_updated_at : Time
  pub turn_contract_updated_at : Time

-- SnapshotOverallGoalInput of a state that is not nil. A missing contract reads as the empty one.
unfoldable pub snapshot_overall_goal_input : SessionState → OverallGoalInputSnapshot
unfolding contract_or_empty
snapshot_overall_goal_input st =
    let c = contract_or_empty st.turn_contract in
    record {
      revision = st.revision;
      session_id = st.session_id;
      agent = st.agent;
      turn_count = st.turn_count;
      last_turn_end_at = st.last_turn_end_at;
      goal = c.goal;
      overall_goal = c.overall_goal;
      overall_goal_provenance = c.overall_goal_provenance;
      overall_goal_updated_at = c.overall_goal_updated_at;
      turn_contract_updated_at = c.updated_at;
    }

unfoldable pub same_snapshot : OverallGoalInputSnapshot → OverallGoalInputSnapshot → Bool
same_snapshot a b =
    a.revision == b.revision
    && (str_eq a.session_id b.session_id
        && (str_eq a.agent b.agent
            && (a.turn_count == b.turn_count
                && (a.last_turn_end_at == b.last_turn_end_at
                    && (text_eq a.goal b.goal
                        && (text_eq a.overall_goal b.overall_goal
                            && (text_eq a.overall_goal_provenance b.overall_goal_provenance
                                && (a.overall_goal_updated_at == b.overall_goal_updated_at
                                    && a.turn_contract_updated_at
                                      == b.turn_contract_updated_at))))))))

-- The writes of ApplySummarizedOverallGoal
unfoldable pub write_summary : String → String → Text → Time → SessionState → SessionState
unfolding identify contract_or_empty
write_summary session_id agent goal now st = record (identify session_id agent now st) {
  turn_contract = some (record (contract_or_empty st.turn_contract) {
    overall_goal = goal;
    overall_goal_provenance = summarizer_provenance;
    overall_goal_updated_at = now;
    updated_at = now;
  });
  updated_at = now;
}

-- The writes of ApplyVerifiedCanonicalHistoryBinding
unfoldable pub binding_state :
    String → String → String → String → Time → SessionState → SessionState
unfolding identify contract_or_empty
binding_state session_id agent basename conversation_id now st =
    record (identify session_id agent now st) {
      turn_contract = some (record (contract_or_empty st.turn_contract) {
        canonical_history = some (record {
          basename = basename;
          conversation_id = conversation_id;
          provenance = history_provenance;
          updated_at = now;
        });
        updated_at = now;
      });
      updated_at = now;
    }

-- ApplyVerifiedCanonicalHistoryBinding; `verified` is whether VerifyCanonicalHistoryBinding, which
-- reads the history file, found no error.
unfoldable pub apply_verified_canonical_history_binding :
    String → String → Bool → String → String → Time → Document → Result Document
unfolding binding_state mutate_session_state
apply_verified_canonical_history_binding session_id agent verified basename conversation_id now d =
    if verified
    then mutate_session_state session_id
        (binding_state session_id agent basename conversation_id now) d
    else err unverified_history

unfoldable pub check_and_write :
    String → String → Text → OverallGoalInputSnapshot → Time → SessionState → Result SessionState
unfolding snapshot_overall_goal_input same_snapshot write_summary
check_and_write session_id agent goal expected now st =
    if same_snapshot (snapshot_overall_goal_input st) expected
    then ok (write_summary session_id agent goal now st)
    else err stale_goal

module _ (is_space : ℕ → Bool) where
  unfoldable pub init_state : String → String → Text → Time → SessionState → SessionState
  unfolding identify seed_goal contract_or_empty
  init_state session_id agent launch_goal now st =
      let st' = identify session_id agent now st in
      let goal = compact_contract_text is_space launch_goal in
      record st' {
        updated_at = if is_zero st.updated_at then now else st.updated_at;
        turn_contract =
            if text_eq goal []
            then st.turn_contract
            else some (seed_goal goal now (contract_or_empty st.turn_contract));
      }

  -- InitSessionState
  unfoldable pub init_session_state : String → String → Text → Time → Document → Result Document
  unfolding init_state mutate_session_state
  init_session_state session_id agent launch_goal now =
      mutate_session_state session_id (init_state session_id agent launch_goal now)

  unfoldable pub contract_state :
      String → String → TurnContractUpdate → Time → SessionState → SessionState
  unfolding identify apply_turn_contract_update
  contract_state session_id agent contract now st = record (identify session_id agent now st) {
    turn_contract = apply_turn_contract_update is_space st.turn_contract contract now;
    updated_at = now;
  }

  -- ApplyContractOnly
  unfoldable pub apply_contract_only :
      String → String → TurnContractUpdate → Time → Document → Result Document
  unfolding contract_state mutate_session_state
  apply_contract_only session_id agent contract now =
      mutate_session_state session_id (contract_state session_id agent contract now)

  unfoldable pub event_state :
      String → String → Event → String → TurnContractUpdate → Time → SessionState → SessionState
  unfolding identify record_event apply_turn_contract_update
  event_state session_id agent event tool contract now st =
      let st' = record (identify session_id agent now st) {
        last_event = some event;
        events_seen = st.events_seen + 1;
        updated_at = now;
      } in
      record (record_event event tool now st') {
        turn_contract = apply_turn_contract_update is_space st.turn_contract contract now;
      }

  unfoldable pub apply_known_event :
      Option Event
      → String
      → String
      → String
      → TurnContractUpdate
      → Time
      → Document
      → Result Document
  unfolding event_state mutate_session_state
  apply_known_event none session_id agent tool contract now d = err unknown_event
  apply_known_event (some event) session_id agent tool contract now d =
      mutate_session_state session_id (event_state session_id agent event tool contract now) d

  -- ApplyEventWithContract; ApplyEvent is this with an empty update.
  unfoldable pub apply_event_with_contract :
      String → String → String → String → TurnContractUpdate → Time → Document → Result Document
  unfolding apply_known_event canonical_event
  apply_event_with_contract session_id agent event tool contract now d =
      apply_known_event (canonical_event event) session_id agent tool contract now d

  -- ApplySummarizedOverallGoal
  unfoldable pub apply_summarized_overall_goal :
      String → String → Text → OverallGoalInputSnapshot → Time → Document → Result Document
  unfolding check_and_write mutate_session_state_checked
  apply_summarized_overall_goal session_id agent overall_goal expected now d =
      let goal = compact_contract_text is_space overall_goal in
      if text_eq goal []
      then err goal_required
      else if not (str_eq expected.session_id session_id)
          || (str_eq expected.agent ""
              || (not (str_eq expected.agent agent)
                  || (ltb expected.turn_count 1 || is_zero expected.last_turn_end_at)))
      then err snapshot_required
      else mutate_session_state_checked session_id
          (check_and_write session_id agent goal expected now) d
