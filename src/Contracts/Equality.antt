-- ===== src/Contracts/Equality.antt =====
-- Python's `==` on the values of a JSON column: dicts regardless of the order of their keys (each key
-- stands once), and a bool as the number that it is.
use control_architecture.Base.{
  ℕ, suc, Bool, true, false, Option, none, some, ◌&&◌, ◌==◌, if◌then◌else◌, nat_eq, string_eq,
}
use control_architecture.Contracts.Json.{Json, Items, Fields, get_field}

abbrev number_of : Json → Option ℕ
number_of (Json.bool true) = some 1
number_of (Json.bool false) = some 0
number_of (Json.num n) = some n
number_of _ = none

abbrev same_number : ℕ → Option ℕ → Bool
same_number n none = false
same_number n (some m) = n == m

abbrev size : Fields → ℕ
size Fields.end = 0
size (Fields.field k v d) = suc (size d)

abbrev holds : (Json → Bool) → Option Json → Bool
holds p none = false
holds p (some w) = p w

unfoldable mutual
  unfolding get_field

  pub same_value : Json → Json → Bool
  same_value Json.null Json.null = true
  same_value Json.null _ = false
  same_value (Json.bool b) w = same_number (if b then 1 else 0) (number_of w)
  same_value (Json.num n) w = same_number n (number_of w)
  same_value (Json.str s) (Json.str t) = s == t
  same_value (Json.str s) _ = false
  same_value (Json.arr xs) (Json.arr ys) = same_items xs ys
  same_value (Json.arr xs) _ = false
  same_value (Json.obj d) (Json.obj e) = (size d == size e) && within d e
  same_value (Json.obj d) _ = false

  pub same_items : Items → Items → Bool
  same_items Items.nil Items.nil = true
  same_items Items.nil (Items.cons w ys) = false
  same_items (Items.cons v xs) Items.nil = false
  same_items (Items.cons v xs) (Items.cons w ys) = same_value v w && same_items xs ys

  -- Each key of the first dict has the same value in the second.
  pub within : Fields → Fields → Bool
  within Fields.end e = true
  within (Fields.field k v d) e = holds (same_value v) (get_field k e) && within d e

abbrev pub same_fields : Fields → Fields → Bool
same_fields d e = same_value (Json.obj d) (Json.obj e)
