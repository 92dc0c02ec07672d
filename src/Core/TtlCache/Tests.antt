-- ===== src/Core/TtlCache/Tests.antt =====
-- Tests of the cache, and the theorems at concrete inputs.
use koraku.Prelude.{
  suc, ℕ, ◌≤◌, ◌≡◌, ◌≢◌, refl, none, some, List, [], ◌∷◌, arith, max, length, text_equality,
  codes_beq_iff, ◌+◌, false,
}
use mathlib.Core.Option.{some-injective}
use koraku.Prelude.Text.{Text, text, strip, is_empty}
use koraku.Prelude.Dict
use koraku.Core.TtlCache.{
  TtlCache, init, is_stale, get, oldest_from, oldest, make_room, set, invalidate, clear,
  cache_get_or_set,
}
use koraku.Core.TtlCache.Bounds.{Call, IsValid, run, run_bounded}
use koraku.Core.TtlCache.Reads

program : Unit {0}
unfolding init is_stale get oldest_from oldest make_room set invalidate clear cache_get_or_set strip
    Dict.get Dict.put Dict.remove
program = tt

abbrev one_row : TtlCache ℕ
one_row = record { rows = (text "a", (5, 1)) ∷ []; max_size = 16 }

abbrev names : List Text
names =
    text "a"
    ∷ text "b"
    ∷ text "c"
    ∷ text "d"
    ∷ text "e"
    ∷ text "f"
    ∷ text "g"
    ∷ text "h"
    ∷ text "i"
    ∷ text "j"
    ∷ text "k"
    ∷ text "l"
    ∷ text "m"
    ∷ text "n"
    ∷ text "o"
    ∷ text "p"
    ∷ []

abbrev rows_from : ℕ → List Text → Dict.Dict Text (ℕ × ℕ)
rows_from t [] = []
rows_from t (k ∷ ks) = (k, (t, 0)) ∷ rows_from (suc t) ks

abbrev full : TtlCache ℕ
full = record { rows = rows_from 3 names; max_size = 16 }

full-IsValid : IsValid full
unfolding Dict.get
full-IsValid = record {
  room = omega arith;
  bounded = omega arith;
  unique = (
    refl,
    (
      refl,
      (
        refl,
        (
          refl,
          (
            refl,
            (
              refl,
              (refl, (refl, (refl, (refl, (refl, (refl, (refl, (refl, (refl, (refl, tt)))))))))),
            ),
          ),
        ),
      ),
    ),
  );
}

set_then_get :
    get (set (init {A = ℕ} 1) (text " a ") 7 10) (text "a") 5 14
    ≡ (record { rows = (text "a", (10, 7)) ∷ []; max_size = 16 }, some 7)
unfolding program
set_then_get = refl

get_stale : get one_row (text "a") 5 10 ≡ (record { rows = []; max_size = 16 }, none)
unfolding program
get_stale = refl

run_bounded_example :
    (length (run (init {A = ℕ} 3) (Call.set (text "a") 1 2 ∷ Call.clear ∷ [])).rows ≤ max 16 3)
    × Dict.IsUnique (run (init {A = ℕ} 3) (Call.set (text "a") 1 2 ∷ Call.clear ∷ [])).rows
run_bounded_example = run_bounded 3 (Call.set (text "a") 1 2 ∷ Call.clear ∷ [])

get-get_stale_example : (get (get one_row (text "a") 5 10).0 (text "a") 100 11).1 ≡ none
unfolding program
get-get_stale_example = Reads.get-get_stale one_row (text "a") 5 10 100 11 refl

b_not_a : strip (text "b") ≢ strip (text "a")
unfolding strip
b_not_a = ground (arith, codes_beq_iff (text "b") (text "a"))

get-set_ne_example :
    (get (set one_row (text "b") 9 20) (text "a") 5 6).1 ≡ (get one_row (text "a") 5 6).1
get-set_ne_example = Reads.get-set_ne one_row (text "b") 9 (text "a") 5 20 6 (omega arith) b_not_a

q_not_a : strip (text "q") ≢ text "a"
unfolding strip
q_not_a = ground (arith, codes_beq_iff (text "q") (text "a"))

oldest_not_c : oldest full.rows ≢ some (strip (text "c"))
unfolding program
oldest_not_c e =
    let same : text "a" ≡ text "c" = some-injective _ _ e in
    ground (arith, codes_beq_iff (text "a") (text "c"), same)

c_is_there : Dict.get full.rows (strip (text "c")) ≡ some (5, 0)
unfolding program
c_is_there = refl

c_is_named : is_empty (strip (text "c")) ≡ false
unfolding strip
c_is_named = refl

set_present_shrinks_example :
    (length (set full (text "c") 1 30).rows + 1 ≡ 16)
    × ((other : Text) × (s : ℕ × ℕ) × (Dict.get full.rows other ≡ some s)
        × (Dict.get (set full (text "c") 1 30).rows other ≡ none))
set_present_shrinks_example =
    Reads.set_present_shrinks full (text "c") 1 30 (5, 0) c_is_named full-IsValid.unique
      (omega arith) c_is_there oldest_not_c
