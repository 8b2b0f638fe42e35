-- ===== src/Handoff/Manifest.antt =====
-- The manifest of a handoff: its records and the tests on single fields
-- (internal/handoff/manifest.go).
pub mod Fields
pub mod Validate
use arcmux.Prelude.{
  Time, ℤ, pos, leb_ℤ, ltb_ℤ, ℕ, suc, ◌+◌, ◌*◌, Bool, true, false, not, ◌&&◌, ◌||◌, Option, none,
  some, List, [], ◌∷◌, ◌++◌, all, any, length, leb, ltb, ◌==◌, if◌then◌else◌, is_zero,
}
use arcmux.Prelude.Text.{Text, codes, text_eq, has_prefix, contains, trim, trim_right, split}

pub record SourceSession : Type 0 where
  pub device_id : Text
  pub profile_scope : Text
  pub session_id : Text

pub record TargetAgent : Type 0 where
  pub device_id : Text
  pub profile : Text

pub record GoalSummary : Type 0 where
  pub text : Text
  pub provenance : Text
  pub updated_at : Time

pub record HistoryRef : Type 0 where
  pub artifact_id : Text
  pub basename : Text
  pub sha256 : Text
  pub size_bytes : ℤ
  pub conversation_id : Text

-- The constants of a string type, with every other string.
pub data TransferMode : Type 0 where
  remote_branch stored_patch : TransferMode
  other_transfer : Text → TransferMode

pub data RepositoryCleanliness : Type 0 where
  clean dirty : RepositoryCleanliness
  other_cleanliness : Text → RepositoryCleanliness

pub record StoredPatchRef : Type 0 where
  pub artifact_id : Text
  pub sha256 : Text
  pub size_bytes : ℤ
  pub result_tree : Text

pub record RepositorySnapshot : Type 0 where
  pub project_slug : Text
  pub repo_slug : Text
  pub branch : Text
  pub source_head : Text
  pub base_commit : Text
  pub tree_digest : Text
  pub cleanliness : RepositoryCleanliness
  pub transfer : TransferMode
  pub patch : Option StoredPatchRef

pub data ArtifactKind : Type 0 where
  goal session_history document branch commit pull_request : ArtifactKind
  other_kind : Text → ArtifactKind

pub record ArtifactRepoRef : Type 0 where
  pub repo : Text
  pub commit_id : Text

pub record ArtifactSessionRef : Type 0 where
  pub profile_scope : Text
  pub session_id : Text

pub record ArtifactRef : Type 0 where
  pub kind : ArtifactKind
  pub id : Text
  pub repo : Option ArtifactRepoRef
  pub session : Option ArtifactSessionRef

pub data ValidationState : Type 0 where
  not_run passed failed : ValidationState
  other_validation : Text → ValidationState

pub record ValidationEvidence : Type 0 where
  pub state : ValidationState
  pub repository_revision : Text
  pub completed_at : Option Time

-- `artifacts` is none for a nil slice.
pub record Manifest : Type 0 where
  pub schema_version : ℕ
  pub handoff_id : Text
  pub trace_id : Text
  pub parent_handoff_id : Text
  pub source : SourceSession
  pub source_agent : Text
  pub target : TargetAgent
  pub goal : GoalSummary
  pub history : HistoryRef
  pub repository : RepositorySnapshot
  pub artifacts : Option (List ArtifactRef)
  pub validation : ValidationEvidence
  pub created_at : Time

-- What the package takes from elsewhere: the classes of Go's `unicode`, json.Marshal of a manifest,
-- the hexadecimal SHA-256 and safetext.ContainsCredentialLike.
pub record Env : Type 0 where
  pub is_control : ℕ → Bool
  pub is_space : ℕ → Bool
  pub marshal : Manifest → Text
  pub sha256_hex : Text → Text
  pub contains_credential_like : Text → Bool

unfoldable pub is_digit : ℕ → Bool
is_digit c = leb b'0' c && leb c b'9'

unfoldable pub is_lower_alnum : ℕ → Bool
unfolding is_digit
is_lower_alnum c = leb b'a' c && leb c b'z' || is_digit c

unfoldable pub is_alnum : ℕ → Bool
unfolding is_lower_alnum
is_alnum c = leb b'A' c && leb c b'Z' || is_lower_alnum c

-- [A-Za-z0-9._-]
unfoldable pub is_safe_char : ℕ → Bool
unfolding is_alnum
is_safe_char c = is_alnum c || (c == b'.' || (c == b'_' || c == b'-'))

-- safeID
unfoldable pub is_safe_id : Text → Bool
unfolding is_alnum is_safe_char
is_safe_id [] = false
is_safe_id (c ∷ s) = is_alnum c && (all is_safe_char s && leb (length s) 127)

unfoldable pub last_code : ℕ → Text → ℕ
last_code c [] = c
last_code c (d ∷ s) = last_code d s

-- [a-z0-9](?:[a-z0-9_-]{0,61}[a-z0-9])?
unfoldable pub is_profile_name : Text → Bool
unfolding is_lower_alnum last_code
is_profile_name [] = false
is_profile_name (c ∷ s) =
    is_lower_alnum c
    && (is_lower_alnum (last_code c s)
        && (all (λ d. is_lower_alnum d || (d == b'_' || d == b'-')) s && leb (length s) 62))

unfoldable pub drop_prefix : Text → Text → Option Text
drop_prefix s [] = some s
drop_prefix [] (d ∷ p) = none
drop_prefix (c ∷ s) (d ∷ p) = if c == d then drop_prefix s p else none

-- profileScope
unfoldable pub is_profile_scope : Text → Bool
unfolding is_profile_name drop_prefix
is_profile_scope s =
    text_eq s (codes "root")
    || elim (drop_prefix s (codes "profile:")) [ none ↦ false | some n ↦ is_profile_name n ]

unfoldable pub is_safe_word : Text → Bool
unfolding is_safe_char
is_safe_word s = not (text_eq s []) && all is_safe_char s

-- repoSlug
unfoldable pub is_repo_slug : Text → Bool
unfolding is_safe_word
is_repo_slug s = elim (split b'/' s) [ a ∷ b ∷ [] ↦ is_safe_word a && is_safe_word b | _ ↦ false ]

unfoldable pub is_lower_hex : ℕ → Bool
unfolding is_digit
is_lower_hex c = is_digit c || leb b'a' c && leb c b'f'

-- objectID
unfoldable pub is_object_id : Text → Bool
unfolding is_lower_hex
is_object_id s = all is_lower_hex s && (leb 40 (length s) && leb (length s) 64)

-- sha256Hex
unfoldable pub is_sha256_hex : Text → Bool
unfolding is_lower_hex
is_sha256_hex s = all is_lower_hex s && length s == 64
