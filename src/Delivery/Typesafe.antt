-- ===== src/Delivery/Typesafe.antt =====
-- The typesafe judge, internal/delivery/judge_typesafe.go. The service answers through `client`, which
-- is `none` where no key is configured; an error of it is `none` too.
use arcmux.Prelude.{
  ℕ, ◌-◌, String, str_eq, Bool, true, false, ◌&&◌, Option, some, none, List, [], ◌∷◌, length, drop,
  leb, if◌then◌else◌,
}
use arcmux.Prelude.Text.{Text}
use arcmux.Delivery.{
  Scores, State, ingested, pending_submit, blocked, unclear, other, Evidence, Assessment,
}

-- What is sent to the service
pub record Document : Type 0 where
  pub agent : String
  pub requested_prompt : Text
  pub screen_before_send : Text
  pub screen_after_send : Text
  pub working_indicator : Text
  pub attempt : ℕ

pub record Response (Score : Type 0) : Type 0 where
  pub key : String
  pub probability : Score
  pub chosen : String
  pub confidence : Score

pub record EvaluationResponse (Score : Type 0) : Type 0 where
  pub model : String
  pub responses : List (Response Score)

abbrev max_screen : ℕ
max_screen = 4000

-- The documents that an assessment sends to the service, in order, and its answer
abbrev pub Verdict : Type 0 → Type 0
Verdict Score = List Document × Option (Assessment Score)

unfoldable pub trim_for_decision : Text → Text
trim_for_decision s = if leb (length s) max_screen then s else drop (length s - max_screen) s

unfoldable pub document_of : Evidence → Document
unfolding trim_for_decision
document_of e = record {
  agent = e.agent;
  requested_prompt = e.prompt;
  screen_before_send = trim_for_decision e.before_output;
  screen_after_send = trim_for_decision e.after_output;
  working_indicator = e.working_indicator;
  attempt = e.attempt;
}

-- State(response.Chosen)
unfoldable pub state_of : String → State
state_of s =
    if str_eq s "ingested"
    then ingested
    else if str_eq s "pending_submit"
    then pending_submit
    else if str_eq s "blocked"
    then blocked
    else if str_eq s "unclear"
    then unclear
    else other s

unfoldable pub is_unclear : State → Bool
is_unclear unclear = true
is_unclear _ = false

module _ (F : Scores) where
  open F use {Score, ge, lt, percent}

  abbrev max_score : Score → Score → Score
  max_score a b = if lt a b then b else a

  -- The `switch` over the keys
  unfoldable pub read_response : Response Score → Assessment Score → Assessment Score
  unfolding state_of is_unclear
  read_response r a =
      if str_eq r.key "delivery_state"
      then record a { state = state_of r.chosen; confidence = r.confidence }
      else if str_eq r.key "enter_helpful"
      then record a { enter_helpful = r.probability }
      else if str_eq r.key "work_started"
      then record a { work_started = r.probability }
      else if str_eq r.key "prompt_pending_input"
          && (is_unclear a.state && ge r.probability (percent 80))
      then record a { state = pending_submit; confidence = max_score a.confidence r.probability }
      else a

  unfoldable pub read_responses : List (Response Score) → Assessment Score → Assessment Score
  unfolding read_response
  read_responses [] a = a
  read_responses (r ∷ rs) a = read_responses rs (read_response r a)

  -- An unclear state with strong signs of work
  unfoldable pub promote : Assessment Score → Assessment Score
  unfolding is_unclear
  promote a =
      if is_unclear a.state && ge a.work_started (percent 88)
      then record a { state = ingested; confidence = max_score a.confidence a.work_started }
      else a

  unfoldable pub typesafe_answer : EvaluationResponse Score → Assessment Score
  unfolding read_responses promote
  typesafe_answer resp = promote (
      read_responses resp.responses (record {
        state = unclear;
        confidence = percent 0;
        work_started = percent 0;
        enter_helpful = percent 0;
        source = "typesafe";
        model = resp.model;
      }))

  unfoldable pub answer_or : Option (EvaluationResponse Score) → Assessment Score → Assessment Score
  unfolding typesafe_answer
  answer_or none fallback = fallback
  answer_or (some resp) fallback = typesafe_answer resp

  -- Assess of the judge that newTypesafeJudge makes: the documents that it sends, and its answer
  unfoldable pub typesafe_assess :
      Option (Document → Option (EvaluationResponse Score))
      → (Evidence → Assessment Score)
      → Evidence
      → Verdict Score
  unfolding answer_or document_of
  typesafe_assess none heuristic e = ([], some (heuristic e))
  typesafe_assess (some evaluate) heuristic e =
      if e.local_only
      then ([], some (heuristic e))
      else (document_of e ∷ [], some (answer_or (evaluate (document_of e)) (heuristic e)))
