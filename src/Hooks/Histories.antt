-- ===== src/Hooks/Histories.antt =====
-- Histories of writes to one session's hook state (internal/hooks/sessionstate.go): the revision,
-- the turn counter and the working flag.
use arcmux.Prelude.{
  Time, ℕ, ◌+◌, ◌≡◌, refl, ap, ◌∙◌, String, Bool, true, false, Option, some, none, List, [], ◌∷◌,
  arith,
}
use arcmux.Hooks.Contract.{TurnContractUpdate}
use arcmux.Hooks.Store.{
  Event, prompt_submit, tool_start, tool_end, turn_end, notification, canonical_event, SessionState,
  Document, missing, ok, read_state,
}
use arcmux.Hooks.{init_state, contract_state, event_state, check_and_write, binding_state}
use arcmux.Hooks.Writes.{
  Write, inits, updates, reports, summarizes, binds, event_mutation, mutation, write,
  write_committed,
}

-- The counters that one write sets, from those before it.
pub record Counters : Type 0 where
  pub revision : ℕ
  pub turn_count : ℕ
  pub events_seen : ℕ
  pub working : Bool

abbrev pub counters : SessionState → Counters
counters st = record {
  revision = st.revision;
  turn_count = st.turn_count;
  events_seen = st.events_seen;
  working = st.working;
}

-- What an event stands for: a new prompt opens a turn, a tool call goes on with it, `turn_end` ends
-- it, and a notification leaves it.
abbrev pub count_event : Option Event → Counters → Counters
count_event none c = c
count_event (some prompt_submit) c = record c {
  turn_count = c.turn_count + 1;
  events_seen = c.events_seen + 1;
  working = true;
}
count_event (some tool_start) c = record c { events_seen = c.events_seen + 1; working = true }
count_event (some tool_end) c = record c { events_seen = c.events_seen + 1; working = true }
count_event (some turn_end) c = record c { events_seen = c.events_seen + 1; working = false }
count_event (some notification) c = record c { events_seen = c.events_seen + 1 }

abbrev pub count_write : Write → Counters → Counters
count_write (reports agent event tool contract) c =
    count_event (canonical_event event) (record c { revision = c.revision + 1 })
count_write w c = record c { revision = c.revision + 1 }

-- Newest first, from a file that is not there.
abbrev pub count_writes : List (Time × Write) → Counters
count_writes [] = record { revision = 0; turn_count = 0; events_seen = 0; working = false }
count_writes ((now, w) ∷ ws) = count_write w (count_writes ws)

module _ (is_space : ℕ → Bool) (session_id : String) where
  -- The histories of successful writes, newest first, and the file that each leaves.
  pub data History : List (Time × Write) → Document → Type 0 where
    begin : History [] missing
    extend :
        {ws : List (Time × Write)} {d d' : Document} (now : Time) (w : Write)
        → History ws d
        → write is_space session_id w now d ≡ ok d'
        → History ((now, w) ∷ ws) d'

  abbrev advance : SessionState → SessionState
  advance st = record st { revision = st.revision + 1 }

  event_counters :
      (o : Option Event) (agent tool : String) (contract : TurnContractUpdate) (now : Time)
      (st st' : SessionState)
      → event_mutation is_space session_id o agent tool contract now st ≡ ok st'
      → counters (advance st') ≡ count_event o (record (counters st) { revision = st.revision + 1 })
  unfolding event_mutation event_state
  event_counters none agent tool contract now st st' h = cc
  event_counters (some notification) agent tool contract now st st' h = ground arith
  event_counters (some prompt_submit) agent tool contract now st st' h = ground arith
  event_counters (some e) agent tool contract now st st' h = ground arith

  pub mutation-counters :
      (w : Write) (now : Time) (st st' : SessionState)
      → mutation is_space session_id w now st ≡ ok st'
      → counters (advance st') ≡ count_write w (counters st)
  unfolding mutation
  mutation-counters (inits agent goal) now st st' h = unfold init_state in ground arith
  mutation-counters (updates agent contract) now st st' h = unfold contract_state in ground arith
  mutation-counters (reports agent event tool contract) now st st' h =
      event_counters (canonical_event event) agent tool contract now st st' h
  mutation-counters (summarizes agent goal expected) now st st' h =
      unfold check_and_write in ground arith
  mutation-counters (binds agent verified basename conversation_id) now st st' h =
      unfold binding_state in ground arith

  -- A state file that a history of successful writes has left has the number of the writes for its
  -- revision, the number of prompts for its turn count and that of known events for its events
  -- seen, and is working exactly when an event later than the last turn end began or went on with a
  -- turn.
  pub History-counters :
      {ws : List (Time × Write)} {d : Document}
      → History ws d
      → counters (read_state d) ≡ count_writes ws
  unfolding read_state
  History-counters begin = refl
  History-counters (extend {ws} {d} {d'} now w past e) =
      let (st, m, f, n) = write_committed is_space session_id w now d d' e in
      rw (f, read_state)
        (mutation-counters w now (read_state d) st m ∙ ap (count_write w) (History-counters past))
