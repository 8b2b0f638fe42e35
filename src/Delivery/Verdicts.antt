-- ===== src/Delivery/Verdicts.antt =====
-- What the controller does with the judges' answers (internal/delivery/judge.go, judge_hooks.go and
-- controller.go).
use arcmux.Prelude.{
  ℕ, ◌≤◌, ◌<◌, ◌≡◌, ◌≢◌, refl, String, str_eq, eq_iff, Bool, true, false, ◌&&◌, ◌||◌, not, Option,
  some, none, List, [], leb, ◌==◌, Bool-cases, inl, inr, is_zero, if_cases, arith,
}
use arcmux.Prelude.Text.{Text}
use arcmux.Hooks.Store.{SessionState}
use arcmux.Delivery.{Scores, Evidence, Assessment, ControllerConfig, is_ingested, should_submit}
use arcmux.Delivery.Heuristic.{
  heuristic_switch, heuristic_assess, prompt_retained, prompt_visible, is_blocked_screen,
  is_working_screen, is_changed_screen,
}
use arcmux.Delivery.Judges.{
  Judge, JudgeOptions, typesafe_judge, heuristic_judge, hooks_judge, new_judge, hooks_answer,
  hooks_proof, proof_or, assess,
}
use arcmux.Delivery.Typesafe.{Verdict}
use arcmux.Delivery.Privacy.{proof_or-quiet}

-- The scores compare as the fractions that they stand for.
abbrev pub IsCalibrated : Scores → Type 0
IsCalibrated F = (a b : ℕ) → F.ge (F.percent a) (F.percent b) ≡ leb b a

module _ (F : Scores) (calibrated : IsCalibrated F) where
  open F use {Score, ge, percent}

  switch_accepted :
      (c : ControllerConfig Score) (r b w v x : Bool)
      → c.min_confidence ≡ percent 70
      → is_ingested F c (heuristic_switch F r b w v x) ≡ (r || not b && (w || not v && x))
  unfolding is_ingested heuristic_switch
  switch_accepted c r b w v x h = grind (arith, calibrated)

  switch_submitted :
      (c : ControllerConfig Score) (r b w v x progressed : Bool) (n : ℕ)
      → c.min_confidence ≡ percent 70
      → n < c.max_submit_attempts
      → should_submit F c (heuristic_switch F r b w v x) progressed n
        ≡ (not r && (b || not w && (v || not x && (n == 0 && not progressed))))
  unfolding should_submit heuristic_switch
  switch_submitted c r b w v x progressed n h k = grind (arith, calibrated)

  -- With scores that compare as fractions and a minimal confidence of 0.7, isIngested accepts the
  -- heuristic's answer exactly when the prompt was retained above a fresh composer, or else no
  -- blocker shows and the agent shows its working indicator, or the screen changed and the prompt is
  -- not on it.
  pub heuristic_assess-accepted :
      (to_lower trim_space : Text → Text) (fields : Text → List Text) (c : ControllerConfig Score)
      (e : Evidence)
      → c.min_confidence ≡ percent 70
      → is_ingested F c (heuristic_assess to_lower trim_space fields F e) ≡ (
          prompt_retained to_lower trim_space fields F e
          || not (is_blocked_screen to_lower trim_space fields F e)
            && (is_working_screen to_lower trim_space fields F e
                || not (prompt_visible to_lower trim_space fields F e)
                  && is_changed_screen to_lower trim_space fields F e))
  unfolding heuristic_assess
  heuristic_assess-accepted to_lower trim_space fields c e h = switch_accepted c _ _ _ _ _ h

  -- With these scores and this confidence, and submissions left, the controller presses Enter on the
  -- heuristic's answer exactly when the prompt was not retained and a blocker shows, or else the agent
  -- does not show its working indicator and the prompt is on the screen, or the screen is as it was
  -- before the delivery and since the last look, and Enter was not pressed yet.
  pub heuristic_assess-submitted :
      (to_lower trim_space : Text → Text) (fields : Text → List Text) (c : ControllerConfig Score)
      (e : Evidence) (progressed : Bool) (n : ℕ)
      → c.min_confidence ≡ percent 70
      → n < c.max_submit_attempts
      → should_submit F c (heuristic_assess to_lower trim_space fields F e) progressed n ≡ (
          not (prompt_retained to_lower trim_space fields F e)
          && (is_blocked_screen to_lower trim_space fields F e
              || not (is_working_screen to_lower trim_space fields F e)
                && (prompt_visible to_lower trim_space fields F e
                    || not (is_changed_screen to_lower trim_space fields F e)
                      && (n == 0 && not progressed))))
  unfolding heuristic_assess
  heuristic_assess-submitted to_lower trim_space fields c e progressed n h k =
      switch_submitted c _ _ _ _ _ progressed n h k

module _ (F : Scores) where
  open F use {Score, ge, percent}

  module _ (typesafe : Evidence → Verdict Score) (heuristic : Evidence → Assessment Score)
      (read : String → String → Option (Option SessionState)) where
    -- Where the hook state of the delivery's session reports a prompt at or after the start of the
    -- delivery, the hooks judge's answer is accepted, for a minimal confidence of at most 0.97, and
    -- nothing is sent to the service.
    pub hooks_judge-accepted :
        (c : ControllerConfig Score) (dir : String) (fallback : Judge) (e : Evidence)
        (st : SessionState)
        → ge (percent 97) c.min_confidence ≡ true
        → e.session_id ≢ ""
        → e.delivery_started_at ≢ 0
        → read dir e.session_id ≡ some (some st)
        → e.delivery_started_at ≤ st.last_prompt_submit_at
        → (a : Assessment Score) × (assess F typesafe heuristic read (hooks_judge dir fallback) e
            ≡ ([], some a))
          × (is_ingested F c a ≡ true)
    unfolding assess is_ingested hooks_answer
    hooks_judge-accepted c dir fallback e st m s d r p =
        (hooks_answer F st, ground (arith, eq_iff e.session_id ""), ground arith)

    -- Where no state that reports such a prompt is read, the hooks judge sends what its fallback sends
    -- and gives the answer that it gives.
    pub hooks_judge-deferred :
        (dir : String) (fallback : Judge) (e : Evidence)
        → ((st : SessionState)
            → read dir e.session_id ≡ some (some st)
            → st.last_prompt_submit_at < e.delivery_started_at)
        → assess F typesafe heuristic read (hooks_judge dir fallback) e
          ≡ assess F typesafe heuristic read fallback e
    unfolding assess hooks_proof proof_or
    hooks_judge-deferred dir fallback e h = deferred (read dir e.session_id) refl
      where
        deferred :
            (o : Option (Option SessionState))
            → read dir e.session_id ≡ o
            → assess F typesafe heuristic read (hooks_judge dir fallback) e
              ≡ assess F typesafe heuristic read fallback e
        deferred none q = ground arith
        deferred (some none) q = ground arith
        deferred (some (some st)) q = ground (arith, h st q)

-- A judge that never asks the typesafe service
abbrev is_offline : Judge → Bool
is_offline typesafe_judge = false
is_offline heuristic_judge = true
is_offline (hooks_judge dir fallback) = is_offline fallback

offline_kinds :
    (o : JudgeOptions) (j : Judge)
    → (str_eq o.kind "hooks" || str_eq o.kind "heuristic") ≡ true
    → new_judge o ≡ some j
    → is_offline j ≡ true
unfolding new_judge
offline_kinds o j k h = elim (Bool-cases (str_eq o.kind "hooks")) [
  | inl t ↦
      let e : o.kind ≡ "hooks" = (eq_iff o.kind "hooks").0 t in let h' = rw e at h in ground arith
  | inr t ↦
      let e : o.kind ≡ "heuristic" = (eq_iff o.kind "heuristic").0 (ground arith) in
      let h' = rw e at h in ground arith
]

module _ (F : Scores) where
  open F use {Score}

  offline_quiet :
      (typesafe : Evidence → Verdict Score) (heuristic : Evidence → Assessment Score)
      (read : String → String → Option (Option SessionState)) (j : Judge) (e : Evidence)
      → is_offline j ≡ true
      → (assess F typesafe heuristic read j e).0 ≡ []
  unfolding assess
  offline_quiet typesafe heuristic read typesafe_judge e h = cc
  offline_quiet typesafe heuristic read heuristic_judge e h = refl
  offline_quiet typesafe heuristic read (hooks_judge dir fallback) e h =
      if_cases (λ (v : Verdict Score). v.0 ≡ [])
        (str_eq e.session_id "" || is_zero e.delivery_started_at)
        (λ _. offline_quiet typesafe heuristic read fallback e h)
        (λ _.
          proof_or-quiet F (hooks_proof F e (read dir e.session_id)) _
            (offline_quiet typesafe heuristic read fallback e h))

  -- The judge that NewJudge makes for the kind `hooks` or `heuristic` never sends a document to the
  -- service, whatever the typesafe judge would send and answer.
  pub new_judge-offline :
      (o : JudgeOptions) (j : Judge) (typesafe : Evidence → Verdict Score)
      (heuristic : Evidence → Assessment Score)
      (read : String → String → Option (Option SessionState)) (e : Evidence)
      → (str_eq o.kind "hooks" || str_eq o.kind "heuristic") ≡ true
      → new_judge o ≡ some j
      → (assess F typesafe heuristic read j e).0 ≡ []
  new_judge-offline o j typesafe heuristic read e k h =
      offline_quiet typesafe heuristic read j e (offline_kinds o j k h)
