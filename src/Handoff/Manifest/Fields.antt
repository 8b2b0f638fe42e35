-- ===== src/Handoff/Manifest/Fields.antt =====
-- Tests on the text of single fields of a manifest (internal/handoff/manifest.go).
use arcmux.Prelude.{
  ℕ, Bool, true, false, not, ◌&&◌, ◌||◌, List, [], ◌∷◌, all, any, length, leb, ltb, ◌==◌,
  if◌then◌else◌,
}
use arcmux.Prelude.Text.{Text, codes, text_eq, has_prefix, contains, trim_right, split}
use arcmux.Handoff.Manifest.{
  ArtifactKind, is_repo_slug, goal, session_history, document, branch, commit, pull_request,
  other_kind,
}

-- strings.HasSuffix(s, t)
unfoldable pub has_suffix : Text → Text → Bool
has_suffix [] t = text_eq [] t
has_suffix (c ∷ s) t = text_eq (c ∷ s) t || has_suffix s t

-- strings.ContainsRune(t, c)
unfoldable pub mem : ℕ → Text → Bool
mem c t = any (λ d. c == d) t

unfoldable pub last_of : Text → List Text → Text
last_of l [] = l
last_of l (m ∷ ls) = last_of m ls

-- filepath.Base(s)
unfoldable pub base : Text → Text
unfolding last_of
base s =
    if text_eq s []
    then codes "."
    else if text_eq (trim_right (λ c. c == b'/') s) []
    then codes "/"
    else last_of [] (split b'/' (trim_right (λ c. c == b'/') s))

unfoldable pub artifact_kind_eq : ArtifactKind → ArtifactKind → Bool
artifact_kind_eq goal goal = true
artifact_kind_eq session_history session_history = true
artifact_kind_eq document document = true
artifact_kind_eq branch branch = true
artifact_kind_eq commit commit = true
artifact_kind_eq pull_request pull_request = true
artifact_kind_eq (other_kind s) (other_kind t) = text_eq s t
artifact_kind_eq _ _ = false

unfoldable pub is_basename : Text → Bool
unfolding base mem
is_basename s =
    not (text_eq s [])
    && (leb (length s) 255
        && (text_eq (base s) s
            && (not (text_eq s (codes "."))
                && (not (text_eq s (codes ".."))
                    && not (any (λ c. mem c (b'/' ∷ 92 ∷ 0 ∷ 13 ∷ 10 ∷ [])) s)))))

unfoldable pub is_git_component : Text → Bool
unfolding has_suffix
is_git_component s =
    not (text_eq s []) && (not (has_prefix s (codes ".")) && not (has_suffix s (codes ".lock")))

unfoldable pub is_git_char : ℕ → Bool
unfolding mem
is_git_char c = ltb b' ' c && (not (c == 127) && not (mem c (codes "~^:?*[")))

-- validateGitRef
unfoldable pub is_git_ref : Text → Bool
unfolding has_suffix is_git_component is_git_char
is_git_ref s =
    not (text_eq s [])
    && (leb (length s) 256
        && (all (λ p. not (has_prefix s p)) (codes "-" ∷ codes "/" ∷ codes "." ∷ [])
            && (all (λ p. not (has_suffix s p)) (codes "/" ∷ codes "." ∷ codes ".lock" ∷ [])
                && (all (λ p. not (contains s p))
                      (codes ".." ∷ codes "//" ∷ codes "@{" ∷ (92 ∷ []) ∷ [])
                    && (all is_git_component (split b'/' s) && all is_git_char s)))))

unfoldable pub is_slug : Text → Bool
is_slug s = is_repo_slug s && not (contains s (codes ".."))
