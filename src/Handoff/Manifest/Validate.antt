-- ===== src/Handoff/Manifest/Validate.antt =====
-- Manifest.Validate and Manifest.Digest (internal/handoff/manifest.go). A method that returns an
-- error is the test that it returns none: the message is not modelled.
use arcmux.Prelude.{
  pos, leb_ℤ, ltb_ℤ, ℕ, Bool, true, false, not, ◌&&◌, ◌||◌, Option, none, some, List, [], ◌∷◌, ◌++◌,
  all, any, length, leb, ◌==◌, if◌then◌else◌, is_zero,
}
use arcmux.Prelude.Text.{Text, codes, text_eq, trim}
use arcmux.Handoff.Manifest.{
  Env, Manifest, SourceSession, TargetAgent, GoalSummary, HistoryRef, StoredPatchRef,
  RepositorySnapshot, ArtifactRef, ArtifactRepoRef, ArtifactSessionRef, ValidationEvidence,
  is_safe_id, is_profile_scope, is_object_id, is_sha256_hex, TransferMode, RepositoryCleanliness,
  remote_branch, stored_patch, other_transfer, clean, other_cleanliness, other_kind, not_run,
  passed, failed, other_validation,
}
use arcmux.Handoff.Manifest.Fields.{mem, artifact_kind_eq, is_basename, is_git_ref, is_slug}

unfoldable pub source_validate : SourceSession → Bool
source_validate s =
    is_safe_id s.device_id && (is_profile_scope s.profile_scope && is_safe_id s.session_id)

unfoldable pub target_validate : TargetAgent → Bool
target_validate t = is_safe_id t.device_id && is_safe_id t.profile

abbrev pub max_history_bytes : ℕ
max_history_bytes = 67_108_864

abbrev pub max_patch_bytes : ℕ
max_patch_bytes = 268_435_456

unfoldable pub history_validate : HistoryRef → Bool
unfolding is_basename
history_validate h =
    is_safe_id h.artifact_id
    && (is_basename h.basename
        && (is_sha256_hex h.sha256
            && (ltb_ℤ (pos 0) h.size_bytes
                && (leb_ℤ h.size_bytes (pos max_history_bytes)
                    && (text_eq h.conversation_id [] || is_safe_id h.conversation_id)))))

unfoldable pub patch_validate : StoredPatchRef → Bool
patch_validate p =
    is_safe_id p.artifact_id
    && (is_sha256_hex p.sha256
        && (ltb_ℤ (pos 0) p.size_bytes
            && (leb_ℤ p.size_bytes (pos max_patch_bytes) && is_object_id p.result_tree)))

-- The switch on the transfer, over the transfer, the patch, the cleanliness and the tree digest.
unfoldable pub transfer_allows :
    TransferMode → Option StoredPatchRef → RepositoryCleanliness → Text → Bool
unfolding patch_validate
transfer_allows remote_branch none clean tree = true
transfer_allows remote_branch _ _ tree = false
transfer_allows stored_patch none _ tree = false
transfer_allows stored_patch (some p) _ tree = patch_validate p && text_eq p.result_tree tree
transfer_allows (other_transfer s) _ _ tree = false

unfoldable pub transfer_validate : RepositorySnapshot → Bool
unfolding transfer_allows
transfer_validate r = transfer_allows r.transfer r.patch r.cleanliness r.tree_digest

-- The revision a finished validation must be of: that of a stored patch is its result tree.
unfoldable pub is_expected_revision : RepositorySnapshot → TransferMode → Text → Bool
is_expected_revision r stored_patch revision = elim r.patch [
  | none ↦ false
  | some p ↦ text_eq p.result_tree r.tree_digest && text_eq revision p.result_tree
]
is_expected_revision r _ revision = text_eq revision r.source_head

unfoldable pub repository_validate : RepositorySnapshot → Bool
unfolding is_slug is_git_ref transfer_validate
repository_validate r =
    is_safe_id r.project_slug
    && (is_slug r.repo_slug
        && (is_git_ref r.branch
            && (all is_object_id (r.source_head ∷ r.base_commit ∷ r.tree_digest ∷ [])
                && (elim r.cleanliness [ other_cleanliness s ↦ false | _ ↦ true ]
                    && transfer_validate r))))

unfoldable pub artifact_repo_validate : Option ArtifactRepoRef → Bool
unfolding is_slug
artifact_repo_validate none = true
artifact_repo_validate (some r) =
    is_slug r.repo && (text_eq r.commit_id [] || is_object_id r.commit_id)

unfoldable pub artifact_session_validate : Option ArtifactSessionRef → Bool
artifact_session_validate none = true
artifact_session_validate (some s) = is_profile_scope s.profile_scope && is_safe_id s.session_id

unfoldable pub artifact_validate : ArtifactRef → Bool
unfolding artifact_repo_validate artifact_session_validate
artifact_validate a =
    elim a.kind [ other_kind s ↦ false | _ ↦ true ]
    && (is_safe_id a.id && (artifact_repo_validate a.repo && artifact_session_validate a.session))

-- The loop over the artifacts, with those before it.
unfoldable pub artifacts_validate : List ArtifactRef → List ArtifactRef → Bool
unfolding artifact_validate artifact_kind_eq
artifacts_validate before [] = true
artifacts_validate before (a ∷ rest) =
    artifact_validate a
    && (not (any (λ b. artifact_kind_eq b.kind a.kind && text_eq b.id a.id) before)
        && artifacts_validate (before ++ a ∷ []) rest)

module _ (env : Env) where
  -- validateOperatorText, where text is required
  unfoldable pub is_operator_text : Text → ℕ → Bool
  is_operator_text value max_runes =
      let s = trim env.is_space value in
      not (text_eq s [])
      && (leb (length s) max_runes
          && (all (λ c. not (env.is_control c)) s && not (env.contains_credential_like s)))

  unfoldable pub goal_validate : GoalSummary → Bool
  unfolding is_operator_text
  goal_validate g =
      is_operator_text g.text 2048
      && (text_eq g.provenance (codes "explicit_operator") && not (is_zero g.updated_at))

  -- validateOpaqueRevision
  unfoldable pub is_opaque_revision : Text → Bool
  unfolding mem
  is_opaque_revision s =
      not (text_eq s [])
      && (leb (length s) 128
          && all
              (λ c.
                not (env.is_control c)
                && (not (env.is_space c) && not (mem c (b'/' ∷ 92 ∷ b':' ∷ b'=' ∷ []))))
              s)

  unfoldable pub completed_validate : ValidationEvidence → RepositorySnapshot → Bool
  unfolding is_opaque_revision is_expected_revision
  completed_validate v r =
      is_opaque_revision v.repository_revision
      && (is_expected_revision r r.transfer v.repository_revision
          && elim v.completed_at [ none ↦ false | some t ↦ not (is_zero t) ])

  unfoldable pub evidence_validate : ValidationEvidence → RepositorySnapshot → Bool
  unfolding completed_validate
  evidence_validate v r = elim v.state [
    | not_run ↦
        text_eq v.repository_revision [] && elim v.completed_at [ none ↦ true | some t ↦ false ]
    | passed ↦ completed_validate v r
    | failed ↦ completed_validate v r
    | other_validation s ↦ false
  ]

  unfoldable pub parent_validate : Manifest → Bool
  parent_validate m =
      text_eq m.parent_handoff_id []
      || is_safe_id m.parent_handoff_id && not (text_eq m.parent_handoff_id m.handoff_id)

  -- Manifest.Validate
  unfoldable pub validate : Manifest → Bool
  unfolding parent_validate source_validate target_validate goal_validate history_validate
      repository_validate artifacts_validate evidence_validate
  validate m =
      m.schema_version == 1
      && (is_safe_id m.handoff_id
          && (is_safe_id m.trace_id
              && (parent_validate m
                  && (source_validate m.source
                      && (is_safe_id m.source_agent
                          && (target_validate m.target
                              && (not (text_eq m.source.device_id m.target.device_id)
                                  && (goal_validate m.goal
                                      && (history_validate m.history
                                          && (repository_validate m.repository
                                              && (elim m.artifacts [
                                                | none ↦ false
                                                | some l ↦
                                                    leb (length l) 64 && artifacts_validate [] l
                                              ]
                                                  && (evidence_validate m.validation m.repository
                                                      && not (is_zero m.created_at)))))))))))))

  -- Manifest.Digest; a manifest that does not validate has none.
  unfoldable pub digest_of : Manifest → Option Text
  unfolding validate
  digest_of m = if validate m then some (env.sha256_hex (env.marshal m)) else none
