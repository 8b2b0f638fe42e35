-- ===== src/Handoff/Source/History.antt =====
-- The source store over any sequence of calls of its methods.
use arcmux.Prelude.{
  Time, ℤ, ℕ, ◌≡◌, refl, sym, ap, ◌∙◌, subst, arith, Bool-cases, inl, inr, false, none, some, List,
  [], ◌∷◌, All,
}
use arcmux.Prelude.Text.{Text, text_eq, text_eq_iff}
use arcmux.Prelude.Results.{Result, ok, err}
use arcmux.Handoff.Manifest.{Env, Manifest}
use arcmux.Handoff.Record.{
  SourceState, SourceRecord, RetirementMode, ContextAcknowledgement, Transition, TurnObservation,
}
use arcmux.Handoff.Files.{
  Files, read, write, read-All, write-All, read-write-same, read-write-other,
}
use arcmux.Handoff.Store.{Error}
use arcmux.Handoff.Source.{Written, transition_source, queue_source}
use arcmux.Handoff.Source.Proofs.{
  record_source_context_loaded, request_source_retirement, complete_source_retirement,
}
use arcmux.Handoff.Source.Moves.{Outcome, created, replayed, moved}
use arcmux.Handoff.Source.Methods.{
  queue-Outcome, transition-Outcome, context_loaded-Outcome, retirement-Outcome, complete-Outcome,
}
use arcmux.Handoff.Source.Later.{IsKept, Advanced, Later, Later-trans, Moved-Advanced}

-- A call, with the clock's reading
pub data Call : Type 0 where
  queue : Time → Manifest → Call
  transition : Time → Text → ℕ → SourceState → Transition → Call
  context_loaded : Time → Text → ℕ → ContextAcknowledgement → Time → Call
  request : Time → Text → ℕ → RetirementMode → ℤ → TurnObservation → Time → Call
  complete : Time → Text → ℕ → Time → Call

module _ (env : Env) where
  -- The id that a call is about
  unfoldable pub call_id : Call → Text
  call_id (queue now m) = m.handoff_id
  call_id (transition now id expected next t) = id
  call_id (context_loaded now id expected a at) = id
  call_id (request now id expected mode timeout baseline at) = id
  call_id (complete now id expected at) = id

  unfoldable pub answer : Call → Files SourceRecord → Result Error Written
  answer (queue now m) files = queue_source env now m files
  answer (transition now id expected next t) files =
      transition_source env now id expected next t files
  answer (context_loaded now id expected a at) files =
      record_source_context_loaded env now id expected a at files
  answer (request now id expected mode timeout baseline at) files =
      request_source_retirement env now id expected mode timeout baseline at files
  answer (complete now id expected at) files =
      complete_source_retirement env now id expected at files

  -- The files after an answer
  abbrev pub files_after : Result Error Written → Files SourceRecord → Files SourceRecord
  files_after (ok (q, replay, written)) files = written
  files_after (err e) files = files

  -- The calls in turn
  unfoldable pub run_calls : List Call → Files SourceRecord → Files SourceRecord
  unfolding answer
  run_calls [] files = files
  run_calls (c ∷ calls) files = run_calls calls (files_after (answer c files) files)

  pub answer-Outcome :
      (c : Call) (files : Files SourceRecord) {w : Written}
      → answer c files ≡ ok w
      → Outcome env (call_id c) files w
  unfolding answer call_id
  answer-Outcome (queue now m) files h = queue-Outcome env now m files h
  answer-Outcome (transition now id expected next t) files h =
      transition-Outcome env now id expected next t files h
  answer-Outcome (context_loaded now id expected a at) files h =
      context_loaded-Outcome env now id expected a at files h
  answer-Outcome (request now id expected mode timeout baseline at) files h =
      retirement-Outcome env now id expected mode timeout baseline at files h
  answer-Outcome (complete now id expected at) files h =
      complete-Outcome env now id expected at files h

  -- What both ends of an answer have in common
  after_cases :
      (P : Files SourceRecord → Type 0) (x : Result Error Written) (files : Files SourceRecord)
      → ((w : Written) → x ≡ ok w → P (w.2))
      → P files
      → P (files_after x files)
  after_cases P (ok (q, replay, written)) files f p = f (q, replay, written) refl
  after_cases P (err e) files f p = p

  outcome-IsKept :
      (id : Text) (files : Files SourceRecord) (w : Written)
      → All (IsKept env) files
      → Outcome env id files w
      → All (IsKept env) (w.2)
  unfolding IsKept
  outcome-IsKept id files w k (replayed q found v) = k
  outcome-IsKept id files w k (created q fresh v one) =
      write-All (IsKept env) id q files (v, omega (arith, one)) k
  outcome-IsKept id files w k (moved r q found v valid m) =
      let bound = (read-All (IsKept env) id files k found).1 in
      let (advanced, within) = Moved-Advanced env r q bound valid m in
      write-All (IsKept env) id q files
        (record { valid = valid; named = cc (v.named, ap (λ x. x.handoff_id) m.manifest) }, within)
        k

  answer-IsKept :
      (c : Call) (files : Files SourceRecord)
      → All (IsKept env) files
      → All (IsKept env) (files_after (answer c files) files)
  answer-IsKept c files k =
      after_cases (All (IsKept env)) (answer c files) files
        (λ w e. outcome-IsKept (call_id c) files w k (answer-Outcome c files e)) k

  pub run_calls-IsKept :
      (calls : List Call) (files : Files SourceRecord)
      → All (IsKept env) files
      → All (IsKept env) (run_calls calls files)
  unfolding run_calls
  run_calls-IsKept [] files k = k
  run_calls-IsKept (c ∷ calls) files k =
      run_calls-IsKept calls (files_after (answer c files) files) (answer-IsKept c files k)

  -- The record of an id, later
  abbrev pub Follows : Text → SourceRecord → Files SourceRecord → Type 0
  Follows id r files = (q : SourceRecord) × (read id files ≡ some q) × Later r q

  write-Follows :
      (id other : Text) (r p q : SourceRecord) (files : Files SourceRecord)
      → read other files ≡ some r
      → read id files ≡ some p
      → Advanced p q
      → Follows other r (write id q files)
  unfolding Later
  write-Follows id other r p q files e found a = elim (Bool-cases (text_eq other id)) [
    | inl same ↦
        let i = (text_eq_iff other id).0 same in
        (
          q,
          subst (λ x. read x (write id q files) ≡ some q) (sym i) (read-write-same id q files),
          inr (subst (λ x. Advanced x q) (cc (i, e, found)) a),
        )
    | inr apart ↦ (r, read-write-other id other q files apart ∙ e, inl refl)
  ]

  apart_of :
      (id other : Text) {r : SourceRecord} (files : Files SourceRecord)
      → read other files ≡ some r
      → read id files ≡ none
      → text_eq other id ≡ false
  apart_of id other files e fresh = elim (Bool-cases (text_eq other id)) [
    | inl same ↦ let i = (text_eq_iff other id).0 same in cc (i, e, fresh)
    | inr apart ↦ apart
  ]

  outcome-Follows :
      (id other : Text) (r : SourceRecord) (files : Files SourceRecord) (w : Written)
      → All (IsKept env) files
      → read other files ≡ some r
      → Outcome env id files w
      → Follows other r (w.2)
  unfolding Later IsKept
  outcome-Follows id other r files w k e (replayed q found v) = (r, e, inl refl)
  outcome-Follows id other r files w k e (created q fresh v one) =
      (r, read-write-other id other q files (apart_of id other files e fresh) ∙ e, inl refl)
  outcome-Follows id other r files w k e (moved p q found v valid m) =
      let bound = (read-All (IsKept env) id files k found).1 in
      write-Follows id other r p q files e found (Moved-Advanced env p q bound valid m).0

  answer-Follows :
      (c : Call) (id : Text) (r : SourceRecord) (files : Files SourceRecord)
      → All (IsKept env) files
      → read id files ≡ some r
      → Follows id r (files_after (answer c files) files)
  unfolding Later
  answer-Follows c id r files k e =
      after_cases (Follows id r) (answer c files) files
        (λ w h. outcome-Follows (call_id c) id r files w k e (answer-Outcome c files h))
        (r, e, inl refl)

  -- From files that the store has written, whatever calls come, in any order and with any
  -- arguments, a record that is there stays there. It is the same, or its revision has risen and
  -- is still a uint64, its time has not gone back, its manifest and digest are the same, legal
  -- transitions lead to its state, an accepted record has the same target locator, and a proof of
  -- the loaded context and the options of a retirement request are as they were.
  pub run_calls-Follows :
      (calls : List Call) (id : Text) (r : SourceRecord) (files : Files SourceRecord)
      → All (IsKept env) files
      → read id files ≡ some r
      → Follows id r (run_calls calls files)
  unfolding run_calls Later
  run_calls-Follows [] id r files k e = (r, e, inl refl)
  run_calls-Follows (c ∷ calls) id r files k e =
      let (q, found, first) = answer-Follows c id r files k e in
      let (p, last, rest) =
        run_calls-Follows calls id q (files_after (answer c files) files) (answer-IsKept c files k)
          found in
      (p, last, Later-trans r q p first rest)
