-- ===== src/Profile.antt =====
-- The behaviour of one agent program, internal/profile/profile.go. The durations and the retry
-- bound are read from a file; a negative one acts as 0 wherever the daemon compares it.
use arcmux.Prelude.{ℕ, String, Bool, ◌||◌, List, str_eq}
use arcmux.Prelude.Text.{Text}

pub record Profile : Type 0 where
  pub class : String
  pub transport : String
  pub exec_driver : String
  pub name : String
  pub start_command : String
  pub session_start_args : String
  pub ready_pattern : Text
  pub trust_prompt_pattern : Text
  pub trust_response : String
  pub working_indicator : Text
  pub stuck_text_patterns : List Text
  pub stuck_timeout : ℕ
  pub idle_timeout : ℕ
  pub nudge_command : String
  pub max_nudge_retries : ℕ
  pub hook_type : String
  pub hook_dir : String

-- Profile.HookBacked
unfoldable pub hook_backed : Profile → Bool
hook_backed p =
    str_eq p.hook_type "claude_hooks"
    || (str_eq p.hook_type "codex_output" || str_eq p.hook_type "grok_hooks")
