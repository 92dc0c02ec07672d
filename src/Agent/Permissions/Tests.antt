-- ===== src/Agent/Permissions/Tests.antt =====
-- The permission modes on the tools of a run.
use koraku.Prelude.{◌≡◌, refl, none, some, List, [], ◌∷◌, keep}
use koraku.Prelude.Text.{Text, text, strip}
use koraku.Agent.Permissions.{
  plan, read_only, filter_tools_for_permission_mode, normalize_permission_mode,
  tool_blocked_message,
}
use koraku.Agent.Permissions.Modes.{lets_through, filter_tools-eq-keep}

abbrev some_tools : List Text
some_tools = text "Bash" ∷ text "Read" ∷ text "TodoWrite" ∷ []

plan_keeps_two :
    filter_tools_for_permission_mode (λ t. t) some_tools plan ≡ text "Read" ∷ text "TodoWrite" ∷ []
unfolding filter_tools_for_permission_mode
plan_keeps_two = refl

read_only_allows_read : tool_blocked_message (text "Read") read_only ≡ none
unfolding tool_blocked_message
read_only_allows_read = refl

normalize_spaced : normalize_permission_mode (some (text " Read_Only ")) ≡ read_only
unfolding normalize_permission_mode strip
normalize_spaced = refl

filter_tools-eq-keep_example :
    filter_tools_for_permission_mode (λ t. t) some_tools read_only
    ≡ keep (λ t. lets_through read_only t) some_tools
filter_tools-eq-keep_example = filter_tools-eq-keep (λ t. t) some_tools read_only
