-- ===== src/Llm/Sanitize/Plain.antt =====
-- A text without an opening bracket passes the filter as it is.
use koraku.Prelude.{
  ℕ, Bool, true, false, not, ◌||◌, Option, none, List, [], ◌∷◌, ◌++◌, all, keep, length, nat_beq,
  if◌then◌else◌, ◌≡◌, refl, arith,
}
use koraku.Prelude.Text.{Text, text, is_empty, lower_code, lstrip}
use koraku.Prelude.Json.{Value}
use koraku.Llm.Sanitize.Matchers.{
  Matcher, ◌then◌, literal, exact, spaces, call_mark, angle_mark, bracket_mark, json_mark,
  call_tool_head, angle_tool_head, bracket_tool_head,
}
use koraku.Llm.Sanitize.Markers.{
  cut_first, cut_last, is_tool_marker, first_tool_marker, begins_needle, starts_low,
  split_partial_tool_marker, split_partial_json_tool_marker, split_partial_call_tool_marker,
  split_partial_angle_tool_marker, split_partial_bracket_tool_marker,
}
use koraku.Llm.Sanitize.Filter.{
  Step, go_on, halt, marker_step, no_marker_step, try_strip_leading_bracket_tool_call,
  try_strip_leading_call_tool, try_strip_leading_angle_tool, try_strip_leading_tool_json_object,
  no_match, feed_step, run_steps, feed,
}

-- The code points that a marker may begin with: "[", "<" and "{".
abbrev pub is_open : ℕ → Bool
is_open c = nat_beq c 91 || nat_beq c 60 || nat_beq c 123

abbrev pub is_plain : Text → Bool
is_plain s = all (λ c. not (is_open c)) s

lower_plain :
    (c d : ℕ) → is_open c ≡ true → not (is_open d) ≡ true → nat_beq (lower_code d) c ≡ false
lower_plain c d h k = ground arith

plain_lower :
    (c d : ℕ) → is_open c ≡ true → not (is_open d) ≡ true → nat_beq c (lower_code d) ≡ false
plain_lower c d h k = ground arith

plain-lstrip : (s : Text) → is_plain s ≡ true → is_plain (lstrip s) ≡ true
plain-lstrip [] h = refl
plain-lstrip (c ∷ s) h = ground (arith, h, plain-lstrip s)

then_none : (m n : Matcher) (s : Text) → m s ≡ none → (m then n) s ≡ none
unfolding ◌then◌
then_none m n s h = rw (◌then◌, h) refl

literal-none :
    (c : ℕ) (p s : Text) → is_open c ≡ true → is_plain s ≡ true → literal (c ∷ p) s ≡ none
unfolding literal
literal-none c p [] h k = refl
literal-none c p (d ∷ s) h k = rw (lower_plain c d h (ground (arith, k))) refl

exact-none : (c : ℕ) (p s : Text) → is_open c ≡ true → is_plain s ≡ true → exact (c ∷ p) s ≡ none
unfolding exact
exact-none c p [] h k = refl
exact-none c p (d ∷ s) h k = ground (arith, h, k)

-- A head: spaces, a literal that begins with an opening bracket, and more.
head_none :
    (c : ℕ) (p : Text) (n : Matcher) (s : Text)
    → is_open c ≡ true
    → is_plain s ≡ true
    → (spaces then (literal (c ∷ p) then n)) s ≡ none
unfolding ◌then◌ spaces
head_none c p n s h k =
    then_none (literal (c ∷ p)) n (lstrip s) (literal-none c p (lstrip s) h (plain-lstrip s k))

no_marker : (s : Text) → is_plain s ≡ true → is_tool_marker s ≡ false
unfolding json_mark angle_mark call_mark bracket_mark
no_marker s h =
    rw
      (
        then_none (exact (text "{")) _ s (exact-none 123 [] s refl h),
        then_none (literal (text "<tool_call>")) _ s (literal-none 60 (text "tool_call>") s refl h),
        then_none (literal (text "[call")) _ s (literal-none 91 (text "call") s refl h),
        then_none (literal (text "[")) _ s (literal-none 91 [] s refl h),
      )
      refl

cut_first-none :
    (fits : Text → Bool)
    → ((s : Text) → is_plain s ≡ true → fits s ≡ false)
    → (s : Text) → is_plain s ≡ true
    → cut_first fits s ≡ none
unfolding cut_first
cut_first-none fits never [] h = refl
cut_first-none fits never (c ∷ s) h =
    rw (never (c ∷ s) h, cut_first-none fits never s (ground (arith, h))) refl

cut_last-none :
    (fits : Text → Bool)
    → ((s : Text) → is_plain s ≡ true → fits s ≡ false)
    → (s : Text) → is_plain s ≡ true
    → cut_last fits s ≡ none
unfolding cut_last
cut_last-none fits never [] h = refl
cut_last-none fits never (c ∷ s) h =
    rw (cut_last, cut_last-none fits never s (ground (arith, h)), never (c ∷ s) h) refl

no_literal :
    (c : ℕ) (p : Text)
    → is_open c ≡ true
    → (s : Text) → is_plain s ≡ true
    → starts_low (c ∷ p) s ≡ false
no_literal c p h s k = rw (literal-none c p s h k) refl

-- No suffix that is not empty begins a needle.
no_needle :
    (c : ℕ) (p : Text)
    → is_open c ≡ true
    → (s : Text) → is_plain s ≡ true
    → cut_first (begins_needle (c ∷ p)) s ≡ none
unfolding cut_first
no_needle c p h [] k = refl
no_needle c p h (d ∷ s) k = rw (no_begin, no_needle c p h s (ground (arith, k))) refl
  where
    no_begin : begins_needle (c ∷ p) (d ∷ s) ≡ false
    no_begin = ground (arith, plain_lower c d h (ground (arith, k)))

no_partial : (s : Text) → is_plain s ≡ true → split_partial_tool_marker s ≡ none
unfolding split_partial_tool_marker split_partial_json_tool_marker split_partial_call_tool_marker
    split_partial_angle_tool_marker split_partial_bracket_tool_marker
no_partial s h =
    rw
      (
        cut_last-none _ (no_literal 123 [] refl) s h,
        no_needle 91 (text "call ") refl s h,
        cut_last-none _ (no_literal 91 (text "call") refl) s h,
        no_needle 60 (text "tool_call>") refl s h,
        cut_last-none _ (no_literal 60 (text "tool_call>") refl) s h,
        no_needle 91 (text "tool_call]") refl s h,
        cut_last-none _ (no_literal 91 (text "tool_call]") refl) s h,
      )
      refl

bracket_head_none : (s : Text) → is_plain s ≡ true → bracket_tool_head s ≡ none
unfolding bracket_tool_head
bracket_head_none s h = head_none 91 (text "tool_call]") spaces s refl h

call_head_none : (s : Text) → is_plain s ≡ true → call_tool_head s ≡ none
unfolding call_tool_head call_mark
call_head_none s h = head_none 91 (text "call") _ s refl h

angle_head_none : (s : Text) → is_plain s ≡ true → angle_tool_head s ≡ none
unfolding angle_tool_head angle_mark
angle_head_none s h = head_none 60 (text "tool_call>") _ s refl h

module _ (raw_decode : Text → Option (Value × ℕ)) where
  bracket_no_match :
      (s : Text) → is_plain s ≡ true → try_strip_leading_bracket_tool_call false s ≡ no_match
  unfolding try_strip_leading_bracket_tool_call
  bracket_no_match s h = rw (try_strip_leading_bracket_tool_call, bracket_head_none s h) refl

  call_no_match :
      (s : Text) → is_plain s ≡ true → try_strip_leading_call_tool raw_decode false s ≡ no_match
  unfolding try_strip_leading_call_tool
  call_no_match s h = rw (try_strip_leading_call_tool, call_head_none s h) refl

  angle_no_match :
      (s : Text) → is_plain s ≡ true → try_strip_leading_angle_tool raw_decode false s ≡ no_match
  unfolding try_strip_leading_angle_tool
  angle_no_match s h = rw (try_strip_leading_angle_tool, angle_head_none s h) refl

  json_no_match :
      (s : Text)
      → is_plain s ≡ true
      → try_strip_leading_tool_json_object raw_decode false s ≡ no_match
  unfolding try_strip_leading_tool_json_object
  json_no_match [] h = refl
  json_no_match (c ∷ s) h = ground (arith, h)

  feed_step_plain : (s : Text) → is_plain s ≡ true → feed_step raw_decode s ≡ halt (s ∷ []) []
  unfolding feed_step first_tool_marker
  feed_step_plain s h =
      rw
        (
          bracket_no_match s h,
          call_no_match s h,
          angle_no_match s h,
          json_no_match s h,
          marker_step,
          cut_first-none is_tool_marker no_marker s h,
          no_marker_step,
          no_partial s h,
        )
        refl

  feed_plain :
      (c : ℕ) (s : Text) → is_plain (c ∷ s) ≡ true → feed raw_decode [] (c ∷ s) ≡ ([], (c ∷ s) ∷ [])
  unfolding feed run_steps
  feed_plain c s h = by_step (feed_step raw_decode (c ∷ s)) (feed_step_plain (c ∷ s) h)
    where
      by_step :
          (taken : Step)
          → taken ≡ halt ((c ∷ s) ∷ []) []
          → (elim taken as (λ _. Text × List Text) [
            | halt emitted rest ↦ (rest, emitted)
            | go_on emitted rest ↦
                let (left, later) = run_steps raw_decode (feed_step raw_decode) (length s) rest in
                (left, emitted ++ later)
          ])
            ≡ ([], (c ∷ s) ∷ [])
      by_step taken e = rw e refl

  -- The chunks of a stream, one after another.
  abbrev pub feed_all : Text → List Text → Text × List Text
  feed_all buf [] = (buf, [])
  feed_all buf (chunk ∷ chunks) =
      let (next, emitted) = feed raw_decode buf chunk in
      let (last, later) = feed_all next chunks in (last, emitted ++ later)

  -- A stream of chunks without "[", "<" and "{" passes as it is: each chunk is emitted at once, a blank
  -- one not at all, and the buffer stays empty.
  pub plain_passes :
      (chunks : List Text)
      → all is_plain chunks ≡ true
      → feed_all [] chunks ≡ ([], keep (λ chunk. not (is_empty chunk)) chunks)
  unfolding feed
  plain_passes [] h = refl
  plain_passes ([] ∷ chunks) h = plain_passes chunks h
  plain_passes ((c ∷ s) ∷ chunks) h =
      rw (feed_plain c s (ground (arith, h)), plain_passes chunks (ground (arith, h))) refl
