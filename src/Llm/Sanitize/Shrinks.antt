-- ===== src/Llm/Sanitize/Shrinks.antt =====
-- The matchers and the cuts leave no more than they are given.
use koraku.Prelude.{
  ℕ, suc, ◌+◌, ◌≤◌, ◌<◌, Bool, true, false, Option, none, some, [], ◌∷◌, length, nat_beq,
  if◌then◌else◌, ◌≡◌, refl, ap, arith,
}
use Prim.Native.String.{String}
use mathlib.Core.Option.{some-injective, none-ne-some}
use koraku.Prelude.Text.{Text, text, is_space, lower_code, lstrip, length-drop_while-le}
use koraku.Llm.Sanitize.Matchers.{
  Matcher, ◌then◌, literal, spaces, some_spaces, is_letter, skip_word, name, call_mark, angle_mark,
  call_tool_head, angle_tool_head, angle_tool_close, bracket_tool_head, bracket_tool_close_head,
}
use koraku.Llm.Sanitize.Markers.{eat_leading_newlines_only, Cut, after_one, cut_first}

-- A match leaves a rest that is no longer, or that is shorter.
abbrev pub Short : Matcher → Type 0
Short m = (s t : Text) → m s ≡ some t → length t ≤ length s

abbrev pub Strict : Matcher → Type 0
Strict m = (s t : Text) → m s ≡ some t → length t < length s

Strict→Short : (m : Matcher) → Strict m → Short m
Strict→Short m h s t e = omega (arith, h s t e)

module _ (m n : Matcher) where
  then-Short : Short m → Short n → Short (m then n)
  unfolding ◌then◌
  then-Short h k s t = by_first (m s) refl
    where
      by_first :
          (first : Option Text)
          → m s ≡ first
          → (elim first as (λ _. Option Text) [ none ↦ none | some rest ↦ n rest ]) ≡ some t
          → length t ≤ length s
      by_first none same e = absurd (none-ne-some _ e)
      by_first (some rest) same e = omega (arith, h s rest same, k rest t e)

  then-Strict : Strict m → Short n → Strict (m then n)
  unfolding ◌then◌
  then-Strict h k s t = by_first (m s) refl
    where
      by_first :
          (first : Option Text)
          → m s ≡ first
          → (elim first as (λ _. Option Text) [ none ↦ none | some rest ↦ n rest ]) ≡ some t
          → length t < length s
      by_first none same e = absurd (none-ne-some _ e)
      by_first (some rest) same e = omega (arith, h s rest same, k rest t e)

  Short-then-Strict : Short m → Strict n → Strict (m then n)
  unfolding ◌then◌
  Short-then-Strict h k s t = by_first (m s) refl
    where
      by_first :
          (first : Option Text)
          → m s ≡ first
          → (elim first as (λ _. Option Text) [ none ↦ none | some rest ↦ n rest ]) ≡ some t
          → length t < length s
      by_first none same e = absurd (none-ne-some _ e)
      by_first (some rest) same e = omega (arith, h s rest same, k rest t e)

literal_head : (c : ℕ) (p : Text) → Short (literal p) → Strict (literal (c ∷ p))
unfolding literal
literal_head c p later [] t e = absurd (none-ne-some _ e)
literal_head c p later (d ∷ s) t e = by_test (nat_beq (lower_code d) c) e
  where
    by_test : (b : Bool) → (if b then literal p s else none) ≡ some t → length t < suc (length s)
    by_test true e = omega (arith, later s t e)
    by_test false e = absurd (none-ne-some _ e)

literal-Short : (p : Text) → Short (literal p)
literal-Short [] = λ s t e. unfold literal in omega (arith, ap length (some-injective _ _ e))
literal-Short (c ∷ p) = Strict→Short (literal (c ∷ p)) (literal_head c p (literal-Short p))

literal-Strict : (c : ℕ) (p : Text) → Strict (literal (c ∷ p))
literal-Strict c p = literal_head c p (literal-Short p)

spaces-Short : Short spaces
unfolding spaces
spaces-Short s t e =
    omega (arith, ap length (some-injective _ _ e), length-drop_while-le is_space s)

some_spaces-Short : Short some_spaces
unfolding some_spaces
some_spaces-Short [] t e = absurd (none-ne-some _ e)
some_spaces-Short (c ∷ s) t e = by_test (is_space c) e
  where
    by_test :
        (b : Bool) → (if b then some (lstrip s) else none) ≡ some t → length t ≤ suc (length s)
    by_test true e =
        omega (arith, ap length (some-injective _ _ e), length-drop_while-le is_space s)
    by_test false e = absurd (none-ne-some _ e)

length-skip_word-le : (s : Text) → length (skip_word s) ≤ length s
unfolding skip_word
length-skip_word-le [] = omega arith
length-skip_word-le (c ∷ s) = ground (arith, length-skip_word-le s)

name-Short : Short name
unfolding name
name-Short [] t e = absurd (none-ne-some _ e)
name-Short (c ∷ s) t e = by_test (is_letter c) e
  where
    by_test :
        (b : Bool) → (if b then some (skip_word s) else none) ≡ some t → length t ≤ suc (length s)
    by_test true e = omega (arith, ap length (some-injective _ _ e), length-skip_word-le s)
    by_test false e = absurd (none-ne-some _ e)

-- A head that begins with spaces and a literal.
abbrev lit : String → Matcher
lit s = literal (text s)

pub call_tool_head-Strict : Strict call_tool_head
unfolding call_tool_head call_mark
call_tool_head-Strict = Short-then-Strict spaces _ spaces-Short (
    then-Strict (lit "[call") _ (literal-Strict 91 (text "call")) (
      then-Short some_spaces _ some_spaces-Short (
        then-Short name _ name-Short (
          then-Short (lit "]") _ (literal-Short (text "]")) (
            then-Short spaces _ spaces-Short
              (then-Short (lit ":") _ (literal-Short (text ":")) spaces-Short))))))

pub angle_tool_head-Strict : Strict angle_tool_head
unfolding angle_tool_head angle_mark
angle_tool_head-Strict = Short-then-Strict spaces _ spaces-Short (
    then-Strict (lit "<tool_call>") _ (literal-Strict 60 (text "tool_call>")) (
      then-Short spaces _ spaces-Short (
        then-Short (lit "[") _ (literal-Short (text "[")) (
          then-Short name _ name-Short
            (then-Short (lit "]") _ (literal-Short (text "]")) spaces-Short)))))

pub angle_tool_close-Short : Short angle_tool_close
unfolding angle_tool_close
angle_tool_close-Short = then-Short spaces _ spaces-Short (
    then-Short (lit "</tool_call") _ (literal-Short (text "</tool_call")) (
      then-Short spaces _ spaces-Short
        (then-Short (lit ">") _ (literal-Short (text ">")) spaces-Short)))

pub bracket_tool_head-Strict : Strict bracket_tool_head
unfolding bracket_tool_head
bracket_tool_head-Strict =
    Short-then-Strict spaces _ spaces-Short
      (then-Strict (lit "[tool_call]") spaces (literal-Strict 91 (text "tool_call]")) spaces-Short)

pub bracket_tool_close_head-Short : Short bracket_tool_close_head
unfolding bracket_tool_close_head
bracket_tool_close_head-Short =
    then-Short spaces _ spaces-Short
      (then-Short (lit "[/tool_call]") spaces (literal-Short (text "[/tool_call]")) spaces-Short)

pub length-eat-le : (s : Text) → length (eat_leading_newlines_only s) ≤ length s
unfolding eat_leading_newlines_only
length-eat-le [] = omega arith
length-eat-le (c ∷ s) = ground (arith, length-eat-le s)

-- A cut leaves two parts, and the second is not empty.
pub length-cut_first :
    (fits : Text → Bool) (s before found : Text)
    → cut_first fits s ≡ some (before, found)
    → (length before + length found ≡ length s) × (0 < length found)
unfolding cut_first
length-cut_first fits [] before found e = absurd (none-ne-some _ e)
length-cut_first fits (c ∷ s) before found e =
    by_test (λ a b. length-cut_first fits s a b) (fits (c ∷ s)) e
  where
    by_test :
        ((a b : Text)
          → cut_first fits s ≡ some (a, b)
          → (length a + length b ≡ length s) × (0 < length b))
        → (b : Bool)
        → (if b then some ([], c ∷ s) else after_one c (cut_first fits s)) ≡ some (before, found)
        → (length before + length found ≡ suc (length s)) × (0 < length found)
    by_test later true e =
        let same : Path (Text × Text) ([], c ∷ s) (before, found) = some-injective _ _ e in
        let lead : 0 ≡ length before = ap (λ p. length (p.0)) same in
        let rest : suc (length s) ≡ length found = ap (λ p. length (p.1)) same in
        (omega (arith, lead, rest), omega (arith, rest))
    by_test later false e = by_cut (cut_first fits s) refl e
      where
        by_cut :
            (cut : Cut)
            → cut_first fits s ≡ cut
            → after_one c cut ≡ some (before, found)
            → (length before + length found ≡ suc (length s)) × (0 < length found)
        by_cut none same e = absurd (none-ne-some _ e)
        by_cut (some (a, b)) same e =
            let both : Path (Text × Text) (c ∷ a, b) (before, found) = some-injective _ _ e in
            let lead : suc (length a) ≡ length before = ap (λ p. length (p.0)) both in
            let rest : length b ≡ length found = ap (λ p. length (p.1)) both in
            let (sum, positive) = later a b same in
            (omega (arith, lead, rest, sum), omega (arith, rest, positive))
