-- ===== src/Hooks/Contract.antt =====
-- The turn contract of a session's hook state, internal/hooks/sessionstate.go. Texts are runes, and
-- `unicode.IsSpace` is the parameter `is_space`.
use arcmux.Prelude.{
  Time, ℕ, String, Bool, ◌&&◌, Option, some, none, [], ◌∷◌, ◌++◌, map, length, take, ltb,
  if◌then◌else◌,
}
use arcmux.Prelude.Text.{Text, codes, text_eq, trim, split, join, fields_from}

pub record CanonicalHistoryBinding : Type 0 where
  pub basename : String
  pub conversation_id : String
  pub provenance : String
  pub updated_at : Time

pub record TurnContract : Type 0 where
  pub goal : Text
  pub overall_goal : Text
  pub overall_goal_provenance : Text
  pub overall_goal_updated_at : Time
  pub last_user_message : Text
  pub vault_link : Text
  pub canonical_history : Option CanonicalHistoryBinding
  pub success_verification : Text
  pub path : Text
  pub source : Text
  pub updated_at : Time

pub record TurnContractUpdate : Type 0 where
  pub goal : Text
  pub overall_goal : Text
  pub last_user_message : Text
  pub vault_link : Text
  pub success_verification : Text
  pub path : Text
  pub source : Text

-- OverallGoalSummarizerProvenance
abbrev pub summarizer_provenance : Text
summarizer_provenance = codes "hook.overall_goal_summarizer.v1"

-- CanonicalHistoryBindingProvenance
abbrev pub history_provenance : String
history_provenance = "hook.canonical_history_frontmatter.v1"

-- &TurnContract{}
unfoldable pub empty_contract : TurnContract
empty_contract = record {
  goal = [];
  overall_goal = [];
  overall_goal_provenance = [];
  overall_goal_updated_at = 0;
  last_user_message = [];
  vault_link = [];
  canonical_history = none;
  success_verification = [];
  path = [];
  source = [];
  updated_at = 0;
}

unfoldable pub contract_or_empty : Option TurnContract → TurnContract
unfolding empty_contract
contract_or_empty none = empty_contract
contract_or_empty (some c) = c

abbrev pub max_contract_runes : ℕ
max_contract_runes = 600

abbrev pub max_line_runes : ℕ
max_line_runes = 300

-- A field is replaced only by a text that is not empty.
unfoldable pub replace : Text → Text → Text
replace new old = if text_eq new [] then old else new

module _ (is_space : ℕ → Bool) where
  unfoldable pub compact_contract_text : Text → Text
  unfolding fields_from
  compact_contract_text value =
      let v = join b' ' (fields_from is_space [] value) in
      if text_eq v []
      then []
      else if ltb max_contract_runes (length v)
      then take max_contract_runes v
      else v

  unfoldable pub truncate_lines : Text → ℕ → Text
  truncate_lines value n =
      let lines = split 10 value in
      let out = join 10 (map (take max_line_runes) (take n lines)) in
      if text_eq (trim is_space value) []
      then []
      else if ltb n (length lines)
      then out ++ 10 ∷ 8230 ∷ []
      else out

  -- The fields of an update as they are compared and stored.
  unfoldable pub normalize_update : TurnContractUpdate → TurnContractUpdate
  normalize_update u = record {
    goal = compact_contract_text u.goal;
    overall_goal = compact_contract_text u.overall_goal;
    last_user_message = truncate_lines u.last_user_message 3;
    vault_link = compact_contract_text u.vault_link;
    success_verification = compact_contract_text u.success_verification;
    path = compact_contract_text u.path;
    source = compact_contract_text u.source;
  }

unfoldable pub is_empty_update : TurnContractUpdate → Bool
is_empty_update u =
    text_eq u.goal []
    && (text_eq u.overall_goal []
        && (text_eq u.last_user_message []
            && (text_eq u.vault_link []
                && (text_eq u.success_verification []
                    && (text_eq u.path [] && text_eq u.source [])))))

-- The assignments of applyTurnContractUpdate. A new overall goal drops the proof of the old one.
unfoldable pub write_update : TurnContractUpdate → Time → TurnContract → TurnContract
unfolding replace
write_update u now c = record c {
  goal = replace u.goal c.goal;
  overall_goal = replace u.overall_goal c.overall_goal;
  overall_goal_provenance = if text_eq u.overall_goal [] then c.overall_goal_provenance else [];
  overall_goal_updated_at = if text_eq u.overall_goal [] then c.overall_goal_updated_at else now;
  last_user_message = replace u.last_user_message c.last_user_message;
  vault_link = replace u.vault_link c.vault_link;
  success_verification = replace u.success_verification c.success_verification;
  path = replace u.path c.path;
  source = replace u.source c.source;
  updated_at = now;
}

unfoldable pub apply_turn_contract_update :
    (ℕ → Bool) → Option TurnContract → TurnContractUpdate → Time → Option TurnContract
unfolding is_empty_update write_update contract_or_empty normalize_update
apply_turn_contract_update is_space c update now =
    let u = normalize_update is_space update in
    if is_empty_update u then c else some (write_update u now (contract_or_empty c))
