-- ===== src/Hooks/Tests.antt =====
-- A history of writes to one hook state file (internal/hooks/sessionstate.go).
use arcmux.Prelude.{Time, ℕ, ◌==◌, ◌≡◌, ◌≢◌, refl, Bool, true, false, some, none, List, [], ◌∷◌}
use arcmux.Prelude.Text.{codes, text_eq, join, trim_right, trim_left}
use arcmux.Hooks.Contract.{
  TurnContract, contract_or_empty, compact_contract_text, truncate_lines, summarizer_provenance,
  TurnContractUpdate,
}
use arcmux.Hooks.Store.{
  SessionState, prompt_submit, turn_end, Document, missing, stored, ok, read_state,
}
use arcmux.Hooks.{
  init_session_state, apply_event_with_contract, apply_summarized_overall_goal,
  snapshot_overall_goal_input,
}
use arcmux.Hooks.Writes.{Write, inits, reports, summarizes, write}
use arcmux.Hooks.Histories.{counters, count_writes, History, begin, extend, History-counters}
use arcmux.Hooks.Goals.{contract_of, WasSummarized, History-provenance, once, late_summary_refused}

abbrev space : ℕ → Bool
space c = c == 32

abbrev no_update : TurnContractUpdate
no_update = record {
  goal = [];
  overall_goal = [];
  last_user_message = [];
  vault_link = [];
  success_verification = [];
  path = [];
  source = [];
}

abbrev launch : Write
launch = inits "claude" (codes "ship  it")

abbrev prompted : Write
prompted = reports "claude" "prompt_submit" "" no_update

abbrev turn_ended : Write
turn_ended = reports "claude" "turn_end" "" no_update

abbrev launch_contract : TurnContract
launch_contract = record {
  goal = [];
  overall_goal = codes "ship it";
  overall_goal_provenance = [];
  overall_goal_updated_at = 10;
  last_user_message = [];
  vault_link = [];
  canonical_history = none;
  success_verification = [];
  path = [];
  source = [];
  updated_at = 0;
}

abbrev launched_state : SessionState
launched_state = record {
  revision = 1;
  session_id = "s1";
  agent = "claude";
  created_at = 10;
  updated_at = 10;
  last_event = none;
  last_tool = "";
  working = false;
  turn_count = 0;
  events_seen = 0;
  last_prompt_submit_at = 0;
  last_turn_end_at = 0;
  turn_contract = some launch_contract;
}

abbrev asked_state : SessionState
asked_state = record launched_state {
  revision = 2;
  updated_at = 20;
  last_event = some prompt_submit;
  working = true;
  turn_count = 1;
  events_seen = 1;
  last_prompt_submit_at = 20;
}

abbrev done_state : SessionState
done_state = record asked_state {
  revision = 3;
  updated_at = 30;
  last_event = some turn_end;
  working = false;
  events_seen = 2;
  last_turn_end_at = 30;
}

abbrev launched : Document
launched = stored launched_state

abbrev asked : Document
asked = stored asked_state

abbrev done : Document
done = stored done_state

abbrev summary : Write
summary =
    summarizes "claude" (codes "ship it safely") (snapshot_overall_goal_input (read_state done))

abbrev summarized : Document
summarized = stored (record done_state {
  revision = 4;
  updated_at = 40;
  turn_contract = some (record launch_contract {
    overall_goal = codes "ship it safely";
    overall_goal_provenance = summarizer_provenance;
    overall_goal_updated_at = 40;
    updated_at = 40;
  });
})

abbrev four_writes : List (Time × Write)
four_writes = (40, summary) ∷ (30, turn_ended) ∷ (20, prompted) ∷ (10, launch) ∷ []

launched_ok : write space "s1" launch 10 missing ≡ ok launched
unfolding write init_session_state text_eq compact_contract_text join
launched_ok = refl

asked_ok : write space "s1" prompted 20 launched ≡ ok asked
unfolding write apply_event_with_contract text_eq compact_contract_text join truncate_lines
    trim_right trim_left
asked_ok = refl

done_ok : write space "s1" turn_ended 30 asked ≡ ok done
unfolding write apply_event_with_contract text_eq compact_contract_text join truncate_lines
    trim_right trim_left
done_ok = refl

summarized_ok : write space "s1" summary 40 done ≡ ok summarized
unfolding write text_eq apply_summarized_overall_goal compact_contract_text join read_state
summarized_ok = refl

past : History space "s1" four_writes summarized
past =
    extend 40 summary
      (extend 30 turn_ended (extend 20 prompted (extend 10 launch begin launched_ok) asked_ok)
        done_ok)
      summarized_ok

History-counters_example : counters (read_state summarized) ≡ count_writes four_writes
History-counters_example = History-counters space "s1" past

provenance_kept : (contract_of (read_state summarized)).overall_goal_provenance ≢ []
unfolding read_state contract_or_empty
provenance_kept h = cc

History-provenance_example :
    WasSummarized space "s1" (contract_of (read_state summarized)).overall_goal four_writes
History-provenance_example = History-provenance space "s1" past provenance_kept

-- Made from the state that `summary` was written over, a second summary comes too late.
late_summary_refused_example :
    write space "s1"
      (summarizes "claude" (codes "ship it now") (snapshot_overall_goal_input (read_state done)))
      50
      summarized
    ≢ ok done
late_summary_refused_example =
    late_summary_refused space "s1" "claude" (codes "ship it now") 50 done
      (once 40 summary summarized_ok)
