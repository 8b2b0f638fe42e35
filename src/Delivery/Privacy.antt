-- ===== src/Delivery/Privacy.antt =====
-- What the judges send and where their answers come from (internal/delivery/judge.go, judge_hooks.go
-- and judge_typesafe.go).
use arcmux.Prelude.{
  ◌≡◌, ◌≤◌, refl, String, str_eq, true, false, ◌||◌, Option, some, none, [], ◌∷◌, is_zero, if_cases,
}
use arcmux.Hooks.Store.{SessionState}
use arcmux.Delivery.{Scores, Evidence, Assessment}
use arcmux.Delivery.Judges.{
  Judge, typesafe_judge, heuristic_judge, hooks_judge, hooks_proof, hooks_answer, proof_or, assess,
}
use arcmux.Delivery.Typesafe.{
  Document, EvaluationResponse, Verdict, document_of, typesafe_answer, typesafe_assess,
}

module _ (F : Scores) where
  open F use {Score}

  pub proof_or-quiet :
      (o : Option SessionState) (d : Verdict Score) → d.0 ≡ [] → (proof_or F o d).0 ≡ []
  unfolding proof_or
  proof_or-quiet none d h = h
  proof_or-quiet (some st) d h = refl

  -- A configured service, or none
  abbrev pub Client : Type 0
  Client = Option (Document → Option (EvaluationResponse Score))

  module _ (client : Client) (heuristic : Evidence → Assessment Score)
      (read : String → String → Option (Option SessionState)) where
    typesafe_local :
        (e : Evidence)
        → e.local_only ≡ true
        → typesafe_assess F client heuristic e ≡ ([], some (heuristic e))
    unfolding typesafe_assess
    typesafe_local e h = local client
      where
        local : (c : Client) → typesafe_assess F c heuristic e ≡ ([], some (heuristic e))
        local none = refl
        local (some evaluate) = rw h refl

    local_quiet :
        (j : Judge) (e : Evidence)
        → e.local_only ≡ true
        → (assess F (typesafe_assess F client heuristic) heuristic read j e).0 ≡ []
    unfolding assess
    local_quiet typesafe_judge e h = rw (typesafe_local e h) refl
    local_quiet heuristic_judge e h = refl
    local_quiet (hooks_judge dir fallback) e h =
        let d = local_quiet fallback e h in
        if_cases (λ (v : Verdict Score). v.0 ≡ [])
          (str_eq e.session_id "" || is_zero e.delivery_started_at) (λ _. d)
          (λ _. proof_or-quiet (hooks_proof F e (read dir e.session_id)) _ d)

  local_same :
      (client : Client) (heuristic : Evidence → Assessment Score)
      (read : String → String → Option (Option SessionState)) (j : Judge) (e : Evidence)
      → e.local_only ≡ true
      → assess F (typesafe_assess F client heuristic) heuristic read j e
        ≡ assess F (typesafe_assess F none heuristic) heuristic read j e
  unfolding assess
  local_same client heuristic read typesafe_judge e h =
      rw (typesafe_local client heuristic read e h, typesafe_local none heuristic read e h) refl
  local_same client heuristic read heuristic_judge e h = refl
  local_same client heuristic read (hooks_judge dir fallback) e h =
      rw (local_same client heuristic read fallback e h) refl

  -- On evidence that is local only, no judge sends any document to the service, and its answer is
  -- the one that it gives where no service is configured.
  pub assess-local :
      (client : Client) (heuristic : Evidence → Assessment Score)
      (read : String → String → Option (Option SessionState)) (j : Judge) (e : Evidence)
      → e.local_only ≡ true
      → ((assess F (typesafe_assess F client heuristic) heuristic read j e).0 ≡ [])
        × (assess F (typesafe_assess F client heuristic) heuristic read j e
            ≡ assess F (typesafe_assess F none heuristic) heuristic read j e)
  assess-local client heuristic read j e h =
      (local_quiet client heuristic read j e h, local_same client heuristic read j e h)

  module _ (client : Client) (heuristic : Evidence → Assessment Score)
      (read : String → String → Option (Option SessionState)) (e : Evidence) where
    -- Where a verdict comes from: a state read from the hooks that reports a prompt since the
    -- delivery began, with nothing sent; the service's response to the one document sent; or the
    -- heuristic, with nothing sent or without a response to the one document sent.
    pub data IsExplained : Verdict Score → Type 0 where
      by_hooks :
          (dir : String) (st : SessionState)
          → read dir e.session_id ≡ some (some st)
          → e.delivery_started_at ≤ st.last_prompt_submit_at
          → IsExplained ([], some (hooks_answer F st))
      by_service :
          (evaluate : Document → Option (EvaluationResponse Score))
          (resp : EvaluationResponse Score)
          → client ≡ some evaluate
          → e.local_only ≡ false
          → evaluate (document_of e) ≡ some resp
          → IsExplained (document_of e ∷ [], some (typesafe_answer F resp))
      by_heuristic : IsExplained ([], some (heuristic e))
      by_fallback :
          (evaluate : Document → Option (EvaluationResponse Score))
          → client ≡ some evaluate
          → e.local_only ≡ false
          → evaluate (document_of e) ≡ none
          → IsExplained (document_of e ∷ [], some (heuristic e))
