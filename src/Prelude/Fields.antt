-- ===== src/Prelude/Fields.antt =====
-- The laws of the fields of a dict, and of the items of a list.
use mathlib.Core.Path.{◌≡◌, refl, ap}
use mathlib.Core.Bool.{false}
use mathlib.Core.List.{List, [], ◌∷◌}
use mathlib.Core.Option.{some}
use native.Mathlib.Omega.{arith}
use koraku.Prelude.Eq.{◌==◌, text_equality}
use koraku.Prelude.Text.{Text}
use koraku.Prelude.Json.{Value, Fields, end, field, field_of, set_field, items, to_list}

pub field_of-set_field :
    (fs : Fields) (key j : Text) (v : Value)
    → (key == j) ≡ false
    → field_of (set_field fs key v) j ≡ field_of fs j
field_of-set_field end key j v apart = ground arith
field_of-set_field (field k w rest) key j v apart =
    ground (arith, text_equality.equal_iff k key, field_of-set_field rest key j v apart)

pub field_of-set :
    (fs : Fields) (key : Text) (v : Value) → field_of (set_field fs key v) key ≡ some v
field_of-set end key v = ground (arith, text_equality.equal_iff key key)
field_of-set (field k w rest) key v =
    ground (arith, text_equality.equal_iff k key, field_of-set rest key v)

pub to_list-items : (vs : List Value) → to_list (items vs) ≡ vs
to_list-items [] = refl
to_list-items (v ∷ vs) = ap (λ r. v ∷ r) (to_list-items vs)
