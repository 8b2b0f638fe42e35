-- ===== src/Hooks/Writes.antt =====
-- The locked writers of a session's hook state (internal/hooks/sessionstate.go and
-- history_binding.go): what a write that succeeds has done.
use arcmux.Prelude.{
  Time, ℕ, ◌+◌, ◌≡◌, ◌≢◌, refl, ◌⊎◌, inl, inr, String, Bool, true, false, Option, some, none, arith,
  if◌then◌else◌,
}
use arcmux.Prelude.Text.{Text}
use arcmux.Hooks.Contract.{TurnContractUpdate, compact_contract_text as compact}
use arcmux.Hooks.Store.{
  Event, canonical_event, SessionState, Document, stored, Error, Result, ok, err, ◌>>=◌, read_state,
  commit, mutate_session_state_checked, mutate_session_state, max_uint64,
}
use arcmux.Hooks.{
  init_state, init_session_state, contract_state, apply_contract_only, event_state,
  apply_known_event, apply_event_with_contract, OverallGoalInputSnapshot, check_and_write,
  apply_summarized_overall_goal, binding_state, apply_verified_canonical_history_binding,
}

-- The writes on one session, each with the agent that it names.
pub data Write : Type 0 where
  inits : String → Text → Write
  updates : String → TurnContractUpdate → Write
  reports : String → String → String → TurnContractUpdate → Write
  summarizes : String → Text → OverallGoalInputSnapshot → Write
  binds : String → Bool → String → String → Write

Result-cases :
    (r : Result SessionState) → ((st : SessionState) × (r ≡ ok st)) ⊎ ((e : Error) × (r ≡ err e))
Result-cases (ok st) = inl (st, refl)
Result-cases (err e) = inr (e, refl)

commit_ok :
    (st : SessionState) (d' : Document)
    → commit st ≡ ok d'
    → (d' ≡ stored (record st { revision = st.revision + 1 })) × (st.revision ≢ max_uint64)
unfolding commit
commit_ok st d' h = ground arith

bind_committed :
    (r : Result SessionState) (d' : Document)
    → (r >>= commit) ≡ ok d'
    → (st : SessionState) × (r ≡ ok st)
      × (d' ≡ stored (record st { revision = st.revision + 1 }))
      × (st.revision ≢ max_uint64)
bind_committed (ok st) d' h = let (e, n) = commit_ok st d' h in (st, refl, e, n)
bind_committed (err e) d' h = cc

-- The outcome of a writer that succeeded.
pub committed :
    (session_id : String) (mutate : SessionState → Result SessionState) (d d' : Document)
    → mutate_session_state_checked session_id mutate d ≡ ok d'
    → (st : SessionState) × (mutate (read_state d) ≡ ok st)
      × (d' ≡ stored (record st { revision = st.revision + 1 }))
      × (st.revision ≢ max_uint64)
unfolding mutate_session_state_checked
committed session_id mutate d d' h = bind_committed (mutate (read_state d)) d' (ground arith)

-- A write of a given session.
module _ (is_space : ℕ → Bool) (session_id : String) where
  unfoldable pub event_mutation :
      Option Event
      → String
      → String
      → TurnContractUpdate
      → Time
      → SessionState
      → Result SessionState
  event_mutation none agent tool contract now st = err Error.unknown_event
  event_mutation (some e) agent tool contract now st =
      ok (event_state is_space session_id agent e tool contract now st)

  unfoldable pub mutation : Write → Time → SessionState → Result SessionState
  unfolding event_mutation
  mutation (inits agent goal) now st = ok (init_state is_space session_id agent goal now st)
  mutation (updates agent contract) now st =
      ok (contract_state is_space session_id agent contract now st)
  mutation (reports agent event tool contract) now st =
      event_mutation (canonical_event event) agent tool contract now st
  mutation (summarizes agent goal expected) now st =
      check_and_write session_id agent (compact is_space goal) expected now st
  mutation (binds agent verified basename conversation_id) now st =
      if verified
      then ok (binding_state session_id agent basename conversation_id now st)
      else err Error.unverified_history

  unfoldable pub write : Write → Time → Document → Result Document
  write (inits agent goal) now = init_session_state is_space session_id agent goal now
  write (updates agent contract) now = apply_contract_only is_space session_id agent contract now
  write (reports agent event tool contract) now =
      apply_event_with_contract is_space session_id agent event tool contract now
  write (summarizes agent goal expected) now =
      apply_summarized_overall_goal is_space session_id agent goal expected now
  write (binds agent verified basename conversation_id) now =
      apply_verified_canonical_history_binding session_id agent verified basename conversation_id
        now

  event_committed :
      (o : Option Event) (agent tool : String) (contract : TurnContractUpdate) (now : Time)
      (d d' : Document)
      → apply_known_event is_space o session_id agent tool contract now d ≡ ok d'
      → (st : SessionState) × (event_mutation o agent tool contract now (read_state d) ≡ ok st)
        × (d' ≡ stored (record st { revision = st.revision + 1 }))
        × (st.revision ≢ max_uint64)
  unfolding apply_known_event event_mutation
  event_committed none agent tool contract now d d' h = cc
  event_committed (some e) agent tool contract now d d' h =
      committed session_id (λ st. ok (event_state is_space session_id agent e tool contract now st))
        d d' h

  summary_written :
      (agent : String) (goal : Text) (expected : OverallGoalInputSnapshot) (now : Time)
      (d d' : Document)
      → apply_summarized_overall_goal is_space session_id agent goal expected now d ≡ ok d'
      → mutate_session_state_checked session_id
          (check_and_write session_id agent (compact is_space goal) expected now)
          d
        ≡ ok d'
  unfolding apply_summarized_overall_goal
  summary_written agent goal expected now d d' h = ground arith

  binding_committed :
      (agent : String) (verified : Bool) (basename conversation_id : String) (now : Time)
      (d d' : Document)
      → apply_verified_canonical_history_binding session_id agent verified basename conversation_id
          now d
        ≡ ok d'
      → (st : SessionState) × (mutation
            (binds agent verified basename conversation_id)
            now
            (read_state d)
          ≡ ok st)
        × (d' ≡ stored (record st { revision = st.revision + 1 }))
        × (st.revision ≢ max_uint64)
  unfolding apply_verified_canonical_history_binding mutation
  binding_committed agent true basename conversation_id now d d' h =
      committed session_id
        (λ st. ok (binding_state session_id agent basename conversation_id now st)) d d' h
  binding_committed agent false basename conversation_id now d d' h = cc

  -- A write that succeeds is its mutation of the state read, with the revision advanced.
  pub write_committed :
      (w : Write) (now : Time) (d d' : Document)
      → write w now d ≡ ok d'
      → (st : SessionState) × (mutation w now (read_state d) ≡ ok st)
        × (d' ≡ stored (record st { revision = st.revision + 1 }))
        × (st.revision ≢ max_uint64)
  unfolding write mutation mutate_session_state
  write_committed (inits agent goal) now d d' h =
      committed session_id (λ st. ok (init_state is_space session_id agent goal now st)) d d'
        (unfold init_session_state in h)
  write_committed (updates agent contract) now d d' h =
      committed session_id (λ st. ok (contract_state is_space session_id agent contract now st)) d
        d' (unfold apply_contract_only in h)
  write_committed (reports agent event tool contract) now d d' h =
      event_committed (canonical_event event) agent tool contract now d d'
        (unfold apply_event_with_contract in h)
  write_committed (summarizes agent goal expected) now d d' h =
      committed session_id (check_and_write session_id agent (compact is_space goal) expected now) d
        d' (summary_written agent goal expected now d d' h)
  write_committed (binds agent verified basename conversation_id) now d d' h =
      binding_committed agent verified basename conversation_id now d d' h
