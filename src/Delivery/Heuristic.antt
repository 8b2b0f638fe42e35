-- ===== src/Delivery/Heuristic.antt =====
-- The heuristic judge of prompt delivery, internal/delivery/judge.go. Text is bytes here, so
-- `strings.ToLower`, `strings.TrimSpace` and `strings.Fields`, which read it as runes, are the
-- parameters `to_lower`, `trim_space` and `fields`.
use arcmux.Prelude.{
  ℕ, zero, suc, ◌-◌, ◌*◌, Bool, true, false, ◌&&◌, ◌||◌, not, List, [], ◌∷◌, ◌++◌, length, take,
  any, leb, ltb, ◌==◌, if◌then◌else◌,
}
use arcmux.Prelude.Text.{Text, codes, text_eq, has_prefix, contains, split, join}
use arcmux.Delivery.{
  Scores, State, ingested, pending_submit, blocked, unclear, Evidence, Assessment,
}

-- The composer's marker, "›", and the blockers
abbrev composer : Text
composer = 226 ∷ 128 ∷ 186 ∷ []

abbrev pub blockers : List Text
blockers = codes "do you trust" ∷ codes "press enter to continue" ∷ codes "resume" ∷ []

-- strings.Count(s, p) for a `p` that is not empty, as every one here is: what is left to skip of the
-- last match comes first.
unfoldable pub count_from : ℕ → Text → Text → ℕ
count_from skip [] p = 0
count_from (suc skip) (x ∷ s) p = count_from skip s p
count_from zero (x ∷ s) p = elim (has_prefix (x ∷ s) p) [
  | true ↦ suc (count_from (length p - 1) s p)
  | false ↦ count_from zero s p
]

unfoldable pub count_text : Text → Text → ℕ
unfolding count_from
count_text s p = count_from 0 s p

abbrev max_fragment : ℕ
max_fragment = 120

abbrev min_fragment : ℕ
min_fragment = 18

module _ (F : Scores) where
  open F use {Score, percent}

  unfoldable pub heuristic_answer : State → ℕ → ℕ → ℕ → Assessment Score
  heuristic_answer state confidence work_started enter_helpful = record {
    state = state;
    confidence = percent confidence;
    work_started = percent work_started;
    enter_helpful = percent enter_helpful;
    source = "heuristic";
    model = "";
  }

  -- The `switch` of HeuristicJudge.Assess
  unfoldable pub heuristic_switch : Bool → Bool → Bool → Bool → Bool → Assessment Score
  unfolding heuristic_answer
  heuristic_switch retained is_blocked working visible changed =
      if retained
      then heuristic_answer ingested 95 97 2
      else if is_blocked
      then heuristic_answer blocked 93 0 95
      else if working
      then heuristic_answer ingested 90 96 5
      else if visible
      then heuristic_answer pending_submit 84 18 91
      else if changed
      then heuristic_answer ingested 74 73 10
      else heuristic_answer unclear 40 35 62

module _ (to_lower trim_space : Text → Text) (fields : Text → List Text) where
  unfoldable pub normalize_screen : Text → Text
  normalize_screen s = join b' ' (fields (to_lower s))

  unfoldable pub contains_fold : Text → Text → Bool
  contains_fold s sub = contains (to_lower s) (to_lower sub)

  -- The loop of promptFragments: the keys seen, and how many fragments may still be added.
  unfoldable pub fragments_from : ℕ → List Text → List Text → List Text
  unfolding normalize_screen
  fragments_from left seen [] = []
  fragments_from zero seen (l ∷ ls) = []
  fragments_from (suc left) seen (l ∷ ls) =
      let line = take max_fragment (trim_space l) in
      let key = normalize_screen line in
      elim (ltb (length (trim_space l)) min_fragment
        || (text_eq key [] || any (text_eq key) seen)) [
          | true ↦ fragments_from (suc left) seen ls
          | false ↦ line ∷ fragments_from left (key ∷ seen) ls
        ]

  unfoldable pub or_whole : Text → List Text → List Text
  or_whole prompt (f ∷ fs) = f ∷ fs
  or_whole prompt [] =
      let trimmed = take max_fragment (trim_space prompt) in
      if leb min_fragment (length trimmed) then trimmed ∷ [] else []

  unfoldable pub prompt_fragments : Text → List Text
  unfolding fragments_from or_whole
  prompt_fragments prompt = or_whole prompt (fragments_from 3 [] (split 10 prompt))

  unfoldable pub max_count : Text → List Text → ℕ
  unfolding count_text normalize_screen
  max_count output [] = 0
  max_count output (f ∷ fs) =
      let rest = max_count output fs in
      let n = count_text output (normalize_screen f) in if ltb rest n then n else rest

  unfoldable pub prompt_occurrence_count : Text → Text → ℕ
  unfolding max_count prompt_fragments normalize_screen
  prompt_occurrence_count output prompt =
      max_count (normalize_screen output) (prompt_fragments prompt)

  unfoldable pub contains_standalone_composer_marker : Text → Bool
  contains_standalone_composer_marker s =
      any (λ line. text_eq (trim_space line) composer) (split 10 s)

  -- The loop over the lines of the output, with the output before the line.
  unfoldable pub fresh_composer_from : Text → List Text → Text → ℕ → Bool
  unfolding prompt_occurrence_count
  fresh_composer_from before [] prompt total = false
  fresh_composer_from before (line ∷ ls) prompt total =
      let rest = fresh_composer_from (before ++ line ++ 10 ∷ []) ls prompt total in
      text_eq (trim_space line) composer && prompt_occurrence_count before prompt == total || rest

  unfoldable pub contains_fresh_composer_after_latest_prompt : Text → Text → ℕ → Bool
  unfolding fresh_composer_from
  contains_fresh_composer_after_latest_prompt output prompt total =
      fresh_composer_from [] (split 10 output) prompt total

  unfoldable pub contains_blocker_outside_prompt : Text → Text → ℕ → Bool
  unfolding normalize_screen count_text
  contains_blocker_outside_prompt output prompt occurrences =
      any
        (λ blocker.
          ltb (count_text (normalize_screen prompt) blocker * occurrences)
            (count_text output blocker))
        blockers

  module _ (F : Scores) where
    open F use {Score}

    unfoldable pub prompt_visible : Evidence → Bool
    prompt_visible e = ltb 0 (prompt_occurrence_count e.after_output e.prompt)

    unfoldable pub prompt_retained : Evidence → Bool
    prompt_retained e =
        let after = prompt_occurrence_count e.after_output e.prompt in
        not (contains_standalone_composer_marker e.prompt)
        && (ltb (prompt_occurrence_count e.before_output e.prompt) after
            && contains_fresh_composer_after_latest_prompt e.after_output e.prompt after)

    unfoldable pub is_blocked_screen : Evidence → Bool
    is_blocked_screen e =
        contains_blocker_outside_prompt (normalize_screen e.after_output) e.prompt
          (prompt_occurrence_count e.after_output e.prompt)

    unfoldable pub is_working_screen : Evidence → Bool
    is_working_screen e =
        not (text_eq e.working_indicator [])
        && contains_fold (normalize_screen e.after_output) e.working_indicator

    unfoldable pub is_changed_screen : Evidence → Bool
    is_changed_screen e =
        not (text_eq (normalize_screen e.before_output) (normalize_screen e.after_output))

    -- HeuristicJudge.Assess
    unfoldable pub heuristic_assess : Evidence → Assessment Score
    unfolding heuristic_switch
    heuristic_assess e =
        heuristic_switch F (prompt_retained e) (is_blocked_screen e) (is_working_screen e)
          (prompt_visible e) (is_changed_screen e)
