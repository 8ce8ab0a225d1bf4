-- ===== src/Contracts/Json.antt =====
-- The values of Python's `dict[str, Any]`, as they are stored in a JSON column or sent in a body.
use control_architecture.Base.{
  ℕ, String, Bool, Option, none, some, List, [], ◌∷◌, ◌==◌, if◌then◌else◌, string_eq,
}

mutual
  pub data Json : Type 0 where
    null : Json
    bool : Bool → Json
    num : ℕ → Json
    str : String → Json
    arr : Items → Json
    obj : Fields → Json

  pub data Items : Type 0 where
    nil : Items
    cons : Json → Items → Items

  pub data Fields : Type 0 where
    end : Fields
    field : String → Json → Fields → Fields

-- d.get(k)
unfoldable pub get_field : String → Fields → Option Json
get_field k Fields.end = none
get_field k (Fields.field j v d) = let rest = get_field k d in if j == k then some v else rest

abbrev pub strings : List String → Items
strings [] = Items.nil
strings (s ∷ r) = Items.cons (Json.str s) (strings r)

-- A text or None.
abbrev pub nullable : Option String → Json
nullable none = Json.null
nullable (some s) = Json.str s
