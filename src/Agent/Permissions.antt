-- ===== src/Agent/Permissions.antt =====
-- koraku/agent/permissions.py: the permission modes, and the tools that each lets through.
pub mod Modes
pub mod Tests
use koraku.Prelude.{
  Bool, true, false, not, ◌&&◌, Option, none, some, List, [], ◌∷◌, if◌then◌else◌, keep, contains,
  text_equality, ◌==◌,
}
use koraku.Prelude.Text.{Text, text, strip, lower, or_text, or_empty}

pub data PermissionMode : Type 0 where
  default plan read_only confirm_sensitive : PermissionMode

abbrev pub plan_mode_tools : List Text
plan_mode_tools =
    text "AskUser"
    ∷ text "Read"
    ∷ text "Glob"
    ∷ text "Grep"
    ∷ text "WebSearch"
    ∷ text "WebFetch"
    ∷ text "TodoWrite"
    ∷ []

abbrev pub read_only_tools : List Text
read_only_tools =
    text "AskUser"
    ∷ text "Read"
    ∷ text "Glob"
    ∷ text "Grep"
    ∷ text "WebSearch"
    ∷ text "WebFetch"
    ∷ []

abbrev pub sensitive_tools : List Text
sensitive_tools =
    text "Bash"
    ∷ text "Write"
    ∷ text "Edit"
    ∷ text "ComposioRun"
    ∷ text "AutomationsCreate"
    ∷ text "AutomationsUpdate"
    ∷ text "AutomationsDelete"
    ∷ []

abbrev pub read_only_blocked_message : Text
read_only_blocked_message =
    text "Blocked: permission mode is read_only. Only read and search tools are allowed."

abbrev pub plan_blocked_message : Text
plan_blocked_message =
    text
      "Blocked: permission mode is plan. Ask clarifying questions with AskUser before using write, shell, or integration tools."

abbrev pub confirm_denied_message : Text
confirm_denied_message = text "Blocked: user declined approval for this tool call."

-- The modes are strings of the source; this is the string of each.
abbrev pub mode_name : PermissionMode → Text
mode_name default = text "default"
mode_name plan = text "plan"
mode_name read_only = text "read_only"
mode_name confirm_sensitive = text "confirm_sensitive"

unfoldable pub normalize_permission_mode : Option Text → PermissionMode
normalize_permission_mode value =
    let raw = lower (strip (or_text (or_empty value) (text "default"))) in
    if raw == text "default"
    then default
    else if raw == text "plan"
    then plan
    else if raw == text "read_only"
    then read_only
    else if raw == text "confirm_sensitive"
    then confirm_sensitive
    else default

-- The list is one of tools or of their names; `name` reads the name of an entry.
unfoldable pub filter_tools_for_permission_mode {ℓ} :
    {A : Type ℓ} → (A → Text) → List A → PermissionMode → List A
filter_tools_for_permission_mode name tools default = tools
filter_tools_for_permission_mode name tools confirm_sensitive = tools
filter_tools_for_permission_mode name tools plan =
    keep (λ t. contains plan_mode_tools (name t)) tools
filter_tools_for_permission_mode name tools read_only =
    keep (λ t. contains read_only_tools (name t)) tools

unfoldable pub tool_blocked_message : Text → PermissionMode → Option Text
tool_blocked_message tool_name read_only =
    if contains read_only_tools tool_name then none else some read_only_blocked_message
tool_blocked_message tool_name plan =
    if contains plan_mode_tools tool_name then none else some plan_blocked_message
tool_blocked_message tool_name _ = none

unfoldable pub requires_user_approval : Text → PermissionMode → Bool
requires_user_approval tool_name confirm_sensitive = contains sensitive_tools tool_name
requires_user_approval tool_name _ = false
