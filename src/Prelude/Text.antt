-- ===== src/Prelude/Text.antt =====
-- Python's `str` as the list of its code points, with the string methods that the program calls.
use Prim.Native.Char.{code}
use mathlib.Core.Option.{Option, none, some}
use mathlib.Core.Path.{◌≡◌, refl}
use mathlib.Core.Bool.{Bool, true, false, ◌&&◌, ◌||◌}
use mathlib.Core.List.{List, [], ◌∷◌, ◌++◌, map}
use Prim.Native.Nat.{ℕ, zero, suc, ◌%◌, ◌/◌, ◌+◌, ◌≤◌}
use Prim.Native.String.{String}
use native.Mathlib.Omega.{arith}
use koraku.Prelude.Tests.{ltb, leb, nat_beq, if◌then◌else◌}
use koraku.Prelude.Lists.{length}
use koraku.Prelude.Eq.{text_equality}

abbrev pub Text : Type 0
Text = List ℕ

-- A literal of the source.
abbrev pub text : String → Text
text String.[] = []
text (String.◌∷◌ c s) = code c ∷ text s

-- `str.isspace` of one code point.
abbrev pub is_space : ℕ → Bool
is_space c =
    leb 9 c && leb c 13
    || leb 28 c && leb c 32
    || nat_beq c 133
    || nat_beq c 160
    || nat_beq c 5760
    || leb 8192 c && leb c 8202
    || nat_beq c 8232
    || nat_beq c 8233
    || nat_beq c 8239
    || nat_beq c 8287
    || nat_beq c 12288

-- `str.lower` on ASCII; other code points stay.
abbrev pub lower_code : ℕ → ℕ
lower_code c = if leb 65 c && leb c 90 then c + 32 else c

abbrev pub lower : Text → Text
lower = map lower_code

abbrev pub drop_while : (ℕ → Bool) → Text → Text
drop_while p [] = []
drop_while p (c ∷ s) = let rest = drop_while p s in elim (p c) [ true ↦ rest | false ↦ c ∷ s ]

-- s.lstrip(), s.rstrip(), s.strip()
abbrev pub lstrip : Text → Text
lstrip = drop_while is_space

-- What is left of a text when the code points that pass `p` are cut off its end.
abbrev pub drop_while_end : (ℕ → Bool) → Text → Text
drop_while_end p [] = []
drop_while_end p (c ∷ s) = elim (drop_while_end p s) [
  | [] ↦ if p c then [] else c ∷ []
  | d ∷ t ↦ c ∷ d ∷ t
]

abbrev pub rstrip : Text → Text
rstrip = drop_while_end is_space

unfoldable pub strip : Text → Text
strip s = rstrip (lstrip s)

-- s.startswith(p)
abbrev pub starts_with : Text → Text → Bool
starts_with s [] = true
starts_with [] (c ∷ p) = false
starts_with (d ∷ s) (c ∷ p) = nat_beq d c && starts_with s p

-- p in s
abbrev pub contains_text : Text → Text → Bool
contains_text [] p = starts_with [] p
contains_text (c ∷ s) p =
    let rest = contains_text s p in elim (starts_with (c ∷ s) p) [ true ↦ true | false ↦ rest ]

-- bool(s): a text is falsy when it is empty
abbrev pub is_empty : Text → Bool
is_empty [] = true
is_empty (_ ∷ _) = false

-- a or b, on texts
abbrev pub or_text : Text → Text → Text
or_text [] b = b
or_text (c ∷ s) b = c ∷ s

-- value or "", on an optional text
abbrev pub or_empty : Option Text → Text
or_empty none = []
or_empty (some s) = s

pub length-drop_while-le : (p : ℕ → Bool) (s : Text) → length (drop_while p s) ≤ length s
length-drop_while-le p [] = omega arith
length-drop_while-le p (c ∷ s) = ground (arith, length-drop_while-le p s)

pub length-drop_while_end-le : (p : ℕ → Bool) (s : Text) → length (drop_while_end p s) ≤ length s
length-drop_while_end-le p [] = omega arith
length-drop_while_end-le p (c ∷ s) = ground (arith, length-drop_while_end-le p s)

-- str(n) on a number that is not negative: its decimal digits, most significant first.
decimal_digits : ℕ → ℕ → Text → Text
decimal_digits zero n rest = rest
decimal_digits (suc fuel) n rest =
    let digit = 48 + n % 10 in
    let more = decimal_digits fuel (n / 10) (digit ∷ rest) in
    if ltb n 10 then digit ∷ rest else more

-- A number has no more digits than one more than itself, so the fuel is enough.
unfoldable pub decimal : ℕ → Text
unfolding decimal_digits
decimal n = decimal_digits (suc n) n []

decimal_runs : (decimal 0 ≡ text "0") × (decimal 1203 ≡ text "1203")
unfolding decimal
decimal_runs = (refl, refl)

-- The word that a text begins with, and the words after it.
push_word : Text → List Text → List Text
push_word [] words = words
push_word (c ∷ w) words = (c ∷ w) ∷ words

split_from : Text → Text × List Text
split_from [] = ([], [])
split_from (c ∷ s) =
    let (w, words) = split_from s in if is_space c then ([], push_word w words) else (c ∷ w, words)

-- s.split()
unfoldable pub split : Text → List Text
unfolding push_word split_from
split s = let (w, words) = split_from s in push_word w words

-- sep.join(parts)
abbrev pub join : Text → List Text → Text
join sep [] = []
join sep (p ∷ []) = p
join sep (p ∷ q ∷ parts) = p ++ (sep ++ join sep (q ∷ parts))

split_runs : split (text "  ab  c ") ≡ text "ab" ∷ text "c" ∷ []
unfolding split
split_runs = refl
