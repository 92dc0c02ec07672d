-- ===== src/Agent/Permissions/Modes.antt =====
-- The filter of a run's tools and the check before a call are two pieces of code. The filter sees the
-- tools that are collected before it: `Task` is added after it.
use koraku.Prelude.{
  Bool, true, false, not, ◌≡◌, refl, sym, none, some, List, [], ◌∷◌, if◌then◌else◌, keep, contains,
  text_equality, arith,
}
use koraku.Prelude.Text.{Text, strip}
use koraku.Agent.Permissions.{
  PermissionMode, default, plan, read_only, confirm_sensitive, plan_mode_tools, read_only_tools,
  mode_name, normalize_permission_mode, plan_blocked_message, read_only_blocked_message,
  filter_tools_for_permission_mode, tool_blocked_message,
}

abbrev pub lets_through : PermissionMode → Text → Bool
lets_through mode name = elim (tool_blocked_message name mode) [ none ↦ true | some _ ↦ false ]

keep_all {ℓ} :
    {A : Type ℓ} (p : A → Bool) (tools : List A) → ((a : A) → p a ≡ true) → keep p tools ≡ tools
keep_all p [] h = refl
keep_all p (t ∷ ts) h = ground (arith, h t, keep_all p ts h)

keep_same {ℓ} :
    {A : Type ℓ} (p q : A → Bool) (tools : List A)
    → ((a : A) → p a ≡ q a)
    → keep p tools ≡ keep q tools
keep_same p q [] h = refl
keep_same p q (t ∷ ts) h = ground (arith, h t, keep_same p q ts h)

through_if :
    (b : Bool) (m : Text) → b ≡ elim (if b then none else some m) [ none ↦ true | some _ ↦ false ]
through_if true m = refl
through_if false m = refl

of_none : (b : Bool) (m : Text) → (if b then none else some m) ≡ none → b ≡ true
of_none true m h = refl
of_none false m h = ground arith

if_none : (b : Bool) (m : Text) → b ≡ true → (if b then none else some m) ≡ none
if_none true m h = refl
if_none false m h = ground arith

of_not : (b : Bool) → not b ≡ true → b ≡ false
of_not true h = ground arith
of_not false h = refl

-- In every mode `filter_tools_for_permission_mode` keeps, of the tools that it is given, exactly those
-- whose names the check before a call lets through, in their order.
pub filter_tools-eq-keep {ℓ} :
    {A : Type ℓ} (name : A → Text) (tools : List A) (mode : PermissionMode)
    → filter_tools_for_permission_mode name tools mode
      ≡ keep (λ t. lets_through mode (name t)) tools
unfolding filter_tools_for_permission_mode tool_blocked_message
filter_tools-eq-keep name tools default =
    sym (keep_all (λ t. lets_through default (name t)) tools (λ a. refl))
filter_tools-eq-keep name tools confirm_sensitive =
    sym (keep_all (λ t. lets_through confirm_sensitive (name t)) tools (λ a. refl))
filter_tools-eq-keep name tools plan =
    keep_same _ _ tools (λ a. through_if (contains plan_mode_tools (name a)) plan_blocked_message)
filter_tools-eq-keep name tools read_only =
    keep_same _ _ tools
      (λ a. through_if (contains read_only_tools (name a)) read_only_blocked_message)

-- The value of a mode is read back as that mode, and a value that is missing or blank as `default`.
pub normalize-mode_name :
    (mode : PermissionMode)
    → (normalize_permission_mode (some (mode_name mode)) ≡ mode)
      × (normalize_permission_mode none ≡ default)
unfolding normalize_permission_mode strip
normalize-mode_name default = (refl, refl)
normalize-mode_name plan = (refl, refl)
normalize-mode_name read_only = (refl, refl)
normalize-mode_name confirm_sensitive = (refl, refl)
