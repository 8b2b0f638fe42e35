-- ===== src/Delivery/Judges.antt =====
-- NewJudge and the hooks judge, internal/delivery/judge.go and judge_hooks.go. A judge is named by its
-- kind, and `assess` takes what the typesafe judge and the heuristic answer.
use arcmux.Prelude.{String, str_eq, ◌||◌, Option, some, none, [], leb, is_zero, if◌then◌else◌}
use arcmux.Hooks.Store.{SessionState}
use arcmux.Delivery.{Scores, ingested, Evidence, Assessment}
use arcmux.Delivery.Typesafe.{Verdict}

-- The judges that NewJudge makes; a hooks judge has its state directory and its fallback.
pub data Judge : Type 0 where
  typesafe_judge heuristic_judge : Judge
  hooks_judge : String → Judge → Judge

pub record JudgeOptions : Type 0 where
  pub kind : String
  pub session_state_dir : String

-- NewJudge; `none` is its error.
unfoldable pub new_judge : JudgeOptions → Option Judge
new_judge o =
    let without = str_eq o.session_state_dir "" in
    if str_eq o.kind "" || str_eq o.kind "auto"
    then (if without
        then (if str_eq o.kind "auto" then none else some typesafe_judge)
        else some (hooks_judge o.session_state_dir typesafe_judge))
    else if str_eq o.kind "typesafe"
    then some typesafe_judge
    else if str_eq o.kind "heuristic"
    then some heuristic_judge
    else if str_eq o.kind "hooks"
    then (if without then none else some (hooks_judge o.session_state_dir heuristic_judge))
    else none

module _ (F : Scores) where
  open F use {Score, percent}

  unfoldable pub hooks_answer : SessionState → Assessment Score
  hooks_answer st = record {
    state = ingested;
    confidence = percent 97;
    work_started =
        if st.working || leb st.last_prompt_submit_at st.last_turn_end_at
        then percent 97
        else percent 50;
    enter_helpful = percent 5;
    source = "hooks";
    model = "";
  }

  -- The state that was read, if it proves that a prompt was taken in since the delivery began.
  unfoldable pub hooks_proof : Evidence → Option (Option SessionState) → Option SessionState
  hooks_proof e none = none
  hooks_proof e (some none) = none
  hooks_proof e (some (some st)) =
      if leb e.delivery_started_at st.last_prompt_submit_at then some st else none

  -- With a proof, the fallback is not asked.
  unfoldable pub proof_or : Option SessionState → Verdict Score → Verdict Score
  unfolding hooks_answer
  proof_or none fallback = fallback
  proof_or (some st) fallback = ([], some (hooks_answer st))

  -- Assess of each judge, with the documents that it sends, over those of the typesafe judge, the
  -- heuristic, and the reading of a session's hook state in a directory, `none` on an error.
  unfoldable pub assess :
      (Evidence → Verdict Score)
      → (Evidence → Assessment Score)
      → (String → String → Option (Option SessionState))
      → Judge
      → Evidence
      → Verdict Score
  unfolding proof_or hooks_proof
  assess typesafe heuristic read typesafe_judge e = typesafe e
  assess typesafe heuristic read heuristic_judge e = ([], some (heuristic e))
  assess typesafe heuristic read (hooks_judge dir fallback) e =
      let deferred = assess typesafe heuristic read fallback e in
      if str_eq e.session_id "" || is_zero e.delivery_started_at
      then deferred
      else proof_or (hooks_proof e (read dir e.session_id)) deferred
