-- ===== src/Hooks/Goals.antt =====
-- Who writes the trusted overall goal of a session (internal/hooks/sessionstate.go): a summary is
-- written over the state that it was made from or not at all, and nothing else is marked as one.
use arcmux.Prelude.{
  Time, ℕ, ◌+◌, ◌<◌, ◌≡◌, ◌≢◌, refl, ap, sym, subst, ◌∙◌, ◌⊎◌, inl, inr, String, Bool, true, false,
  Option, some, none, List, [], ◌∷◌, arith,
}
use arcmux.Prelude.Text.{Text}
use arcmux.Hooks.Contract.{
  TurnContract, TurnContractUpdate, contract_or_empty, empty_contract, apply_turn_contract_update,
  compact_contract_text as compact,
}
use arcmux.Hooks.Store.{
  Event, prompt_submit, canonical_event, SessionState, Document, ok, err, read_state, zero_state,
  stale_goal,
}
use arcmux.Hooks.{
  init_state, contract_state, event_state, binding_state, OverallGoalInputSnapshot,
  snapshot_overall_goal_input, check_and_write,
}
use arcmux.Hooks.Writes.{
  Write, inits, updates, reports, summarizes, binds, event_mutation, mutation, write,
  write_committed,
}
use arcmux.Hooks.Histories.{
  Counters, counters, count_event, count_write, mutation-counters, History, begin, extend,
}

count_event_revision : (o : Option Event) (c : Counters) → (count_event o c).revision ≡ c.revision
count_event_revision none c = refl
count_event_revision (some prompt_submit) c = refl
count_event_revision (some e) c = ground arith

count_write_revision : (w : Write) (c : Counters) → (count_write w c).revision ≡ c.revision + 1
count_write_revision (reports a e t u) c = count_event_revision (canonical_event e) _
count_write_revision (inits a g) c = refl
count_write_revision (updates a u) c = refl
count_write_revision (summarizes a g s) c = refl
count_write_revision (binds a v b i) c = refl

abbrev pub contract_of : SessionState → TurnContract
contract_of st = contract_or_empty st.turn_contract

-- A write leaves the proof of the overall goal together with the goal, or drops the proof.
abbrev pub KeepsProof : SessionState → SessionState → Type 0
KeepsProof st st' =
    ((contract_of st').overall_goal_provenance ≡ [])
    ⊎ (((contract_of st').overall_goal_provenance ≡ (contract_of st).overall_goal_provenance)
        × ((contract_of st').overall_goal ≡ (contract_of st).overall_goal))

abbrev pub is_summary : Write → Bool
is_summary (summarizes agent goal expected) = true
is_summary w = false

module _ (is_space : ℕ → Bool) (session_id : String) where
  update_keeps :
      (c : Option TurnContract) (u : TurnContractUpdate) (now : Time)
      → let c' = contract_or_empty (apply_turn_contract_update is_space c u now) in
        (c'.overall_goal_provenance ≡ [])
        ⊎ ((c'.overall_goal_provenance ≡ (contract_or_empty c).overall_goal_provenance)
            × (c'.overall_goal ≡ (contract_or_empty c).overall_goal))
  unfolding apply_turn_contract_update
  update_keeps c u now = ground arith

  event_keeps :
      (o : Option Event) (agent tool : String) (u : TurnContractUpdate) (now : Time)
      (st st' : SessionState)
      → event_mutation is_space session_id o agent tool u now st ≡ ok st'
      → KeepsProof st st'
  unfolding event_mutation event_state
  event_keeps none agent tool u now st st' h = cc
  event_keeps (some e) agent tool u now st st' h =
      ground (arith, update_keeps st.turn_contract u now)

  mutation_keeps :
      (w : Write) (now : Time) (st st' : SessionState)
      → is_summary w ≡ false
      → mutation is_space session_id w now st ≡ ok st'
      → KeepsProof st st'
  unfolding mutation
  mutation_keeps (inits agent goal) now st st' s h = unfold init_state in ground arith
  mutation_keeps (updates agent u) now st st' s h =
      unfold contract_state in ground (arith, update_keeps st.turn_contract u now)
  mutation_keeps (reports agent event tool u) now st st' s h =
      event_keeps (canonical_event event) agent tool u now st st' h
  mutation_keeps (summarizes agent goal expected) now st st' s h = cc
  mutation_keeps (binds agent verified basename conversation_id) now st st' s h =
      unfold binding_state in ground arith

  -- Some summary among the writes has this text for its goal.
  abbrev pub WasSummarized : Text → List (Time × Write) → Type 0
  WasSummarized goal [] = ⊥
  WasSummarized goal ((now, summarizes agent g expected) ∷ ws) =
      (goal ≡ compact is_space g) ⊎ WasSummarized goal ws
  WasSummarized goal ((now, w) ∷ ws) = WasSummarized goal ws

  WasSummarized-earlier :
      (goal : Text) (now : Time) (w : Write) (ws : List (Time × Write))
      → WasSummarized goal ws
      → WasSummarized goal ((now, w) ∷ ws)
  WasSummarized-earlier goal now (summarizes agent g expected) ws h = inr h
  WasSummarized-earlier goal now (inits a g) ws h = h
  WasSummarized-earlier goal now (updates a u) ws h = h
  WasSummarized-earlier goal now (reports a e t u) ws h = h
  WasSummarized-earlier goal now (binds a v b i) ws h = h

  summary_goal :
      (agent : String) (g : Text) (expected : OverallGoalInputSnapshot) (now : Time)
      (st st' : SessionState)
      → check_and_write session_id agent g expected now st ≡ ok st'
      → (contract_of st').overall_goal ≡ g
  unfolding check_and_write
  summary_goal agent g expected now st st' h = ground arith

  carried :
      (ws : List (Time × Write)) (st st' : SessionState)
      → KeepsProof st st'
      → ((contract_of st).overall_goal_provenance ≢ []
          → WasSummarized (contract_of st).overall_goal ws)
      → (contract_of st').overall_goal_provenance ≢ []
      → WasSummarized (contract_of st').overall_goal ws
  carried ws st st' (inl e) ih p = absurd (p e)
  carried ws st st' (inr k) ih p = rw (k.1) (ih (λ e. p (k.0 ∙ e)))

  step_proof :
      (w : Write) (now : Time) (ws : List (Time × Write)) (st st' : SessionState)
      → mutation is_space session_id w now st ≡ ok st'
      → ((contract_of st).overall_goal_provenance ≢ []
          → WasSummarized (contract_of st).overall_goal ws)
      → (contract_of st').overall_goal_provenance ≢ []
      → WasSummarized (contract_of st').overall_goal ((now, w) ∷ ws)
  unfolding mutation
  step_proof (summarizes agent g expected) now ws st st' m ih p =
      inl (summary_goal agent (compact is_space g) expected now st st' m)
  step_proof (inits a g) now ws st st' m ih p =
      carried ws st st' (mutation_keeps (inits a g) now st st' refl m) ih p
  step_proof (updates a u) now ws st st' m ih p =
      carried ws st st' (mutation_keeps (updates a u) now st st' refl m) ih p
  step_proof (reports a e t u) now ws st st' m ih p =
      carried ws st st' (mutation_keeps (reports a e t u) now st st' refl m) ih p
  step_proof (binds a v b i) now ws st st' m ih p =
      carried ws st st' (mutation_keeps (binds a v b i) now st st' refl m) ih p

  -- In a state file left by any history of successful writes, an overall goal with a provenance is
  -- the compacted text of one of the summaries of the history: no launch prompt and no contract
  -- update is ever marked as a summary.
  pub History-provenance :
      {ws : List (Time × Write)} {d : Document}
      → History is_space session_id ws d
      → (contract_of (read_state d)).overall_goal_provenance ≢ []
      → WasSummarized (contract_of (read_state d)).overall_goal ws
  unfolding read_state
  History-provenance begin p =
      absurd (p (unfold contract_or_empty empty_contract zero_state in refl))
  History-provenance (extend {ws} {d} {d'} now w past e) p =
      let (st, m, f, n) = write_committed is_space session_id w now d d' e in
      let p' : (contract_of st).overall_goal_provenance ≢ [] =
        subst (λ x. (contract_of (read_state x)).overall_goal_provenance ≢ []) f p in
      subst (λ x. WasSummarized (contract_of (read_state x)).overall_goal ((now, w) ∷ ws)) (sym f)
        (step_proof w now ws (read_state d) st m (λ q. History-provenance past q) p')

  -- One or more successful writes lead from the first file to the second.
  pub data Later (d : Document) : Document → Type 0 where
    once :
        {d' : Document} (now : Time) (w : Write)
        → write is_space session_id w now d ≡ ok d'
        → Later d d'
    again :
        {d' d'' : Document} (now : Time) (w : Write)
        → Later d d'
        → write is_space session_id w now d' ≡ ok d''
        → Later d d''

  write_advances :
      (w : Write) (now : Time) (d d' : Document)
      → write is_space session_id w now d ≡ ok d'
      → (read_state d').revision ≡ (read_state d).revision + 1
  unfolding read_state
  write_advances w now d d' e =
      let (st, m, f, n) = write_committed is_space session_id w now d d' e in
      rw (f, read_state)
        (ap (λ c. c.revision) (mutation-counters is_space session_id w now (read_state d) st m)
          ∙ count_write_revision w (counters (read_state d)))

  Later-advances :
      {d d' : Document} → Later d d' → (read_state d).revision < (read_state d').revision
  Later-advances {d} {d'} (once now w e) = omega (arith, write_advances w now d d' e)
  Later-advances (again {d'} {d''} now w past e) =
      omega (arith, write_advances w now d' d'' e, Later-advances past)

  check_refuses :
      (agent : String) (g : Text) (now : Time) (old st : SessionState)
      → old.revision < st.revision
      → check_and_write session_id agent g (snapshot_overall_goal_input old) now st ≡ err stale_goal
  unfolding check_and_write
  check_refuses agent g now old st h = ground arith

  -- A summary made from one state of the file is refused on any later one, however few the writes
  -- between and whatever they wrote.
  pub late_summary_refused :
      (agent : String) (goal : Text) (now : Time) {d d' : Document} (d'' : Document)
      → Later d d'
      → write is_space session_id
          (summarizes agent goal (snapshot_overall_goal_input (read_state d)))
          now
          d'
        ≢ ok d''
  late_summary_refused agent goal now {d} {d'} d'' later e =
      let w = summarizes agent goal (snapshot_overall_goal_input (read_state d)) in
      let (st, m, f, n) = write_committed is_space session_id w now d' d'' e in
      unfold mutation in
      cc (
        check_refuses agent (compact is_space goal) now (read_state d) (read_state d')
          (Later-advances later))
