-- ===== src/Base/Text.antt =====
-- Python's f-strings, its `or` on an optional text, and the tests on texts that the program makes.
use Prim.Native.Nat.{ℕ, ◌+◌}
use Prim.Native.Char.{code}
use Prim.Native.String
use Prim.Native.String.{String}
use mathlib.Core.Bool.{Bool, true, false, ◌&&◌}
use mathlib.Core.List.{List, [], ◌∷◌, reverse, Memᴰ}
use mathlib.Core.Logic.{◌↔◌, inl, inr, ◌≢◌}
use mathlib.Core.Path.{◌≡◌, sym, ap, ◌∙◌}
use text.Mathlib.TextLemmas.{append-eq-nil_iff}
use mathlib.Core.Option.{Option, none, some}
use native.Mathlib.Omega.{arith}
use control_architecture.Base.Equality.{◌==◌, leb, if◌then◌else◌, nat_eq, string_eq, Bool-cases}

-- The pieces of an f-string, joined.
abbrev pub format : List String → String
format [] = ""
format (s ∷ r) = String.◌++◌ s (format r)

-- `x or y` where `x` is a text or None: the empty text is false too.
abbrev pub or_text : Option String → String → String
or_text none y = y
or_text (some x) y = if x == "" then y else x

-- `bool(x)` where `x` is a text or None.
abbrev pub truthy : Option String → Bool
truthy none = false
truthy (some x) = if x == "" then false else true

-- `x or y` where `x` is None or a value that is always true (a literal of an enumeration).
abbrev pub or_value {ℓ} : {A : Type ℓ} → Option A → A → A
or_value none y = y
or_value (some x) y = x

-- A text as its code points.
abbrev pub codes : String → List ℕ
codes String.[] = []
codes (String.◌∷◌ c s) = code c ∷ codes s

-- `str.lower`, on ASCII letters.
unfoldable pub lower_code : ℕ → ℕ
lower_code c = if leb b'A' c && leb c b'Z' then c + 32 else c

unfoldable pub starts_with : List ℕ → List ℕ → Bool
starts_with s [] = true
starts_with [] (c ∷ t) = false
starts_with (d ∷ s) (c ∷ t) = let rest = starts_with s t in if d == c then rest else false

-- `t in s`
unfoldable pub contains : List ℕ → List ℕ → Bool
unfolding starts_with
contains [] t = starts_with [] t
contains (d ∷ s) t = let rest = contains s t in if starts_with (d ∷ s) t then true else rest

-- `s.endswith(t)`
unfoldable pub ends_with : List ℕ → List ℕ → Bool
unfolding starts_with
ends_with s t = starts_with (reverse s) (reverse t)

-- `t in xs`, for a list of texts.
unfoldable pub is_in : String → List String → Bool
is_in t [] = false
is_in t (x ∷ xs) = let rest = is_in t xs in if x == t then true else rest

-- The test is membership.
is_in→Mem : (t : String) (xs : List String) → is_in t xs ≡ true → Memᴰ t xs
unfolding is_in
is_in→Mem t [] h = cc
is_in→Mem t (x ∷ xs) h = elim (Bool-cases (x == t)) [
  | inl e ↦ Memᴰ.head (ground arith)
  | inr e ↦ Memᴰ.tail (is_in→Mem t xs (ground arith))
]

Mem→is_in : (t : String) (xs : List String) → Memᴰ t xs → is_in t xs ≡ true
unfolding is_in
Mem→is_in t [] m = elim m [ ]
Mem→is_in t (x ∷ xs) (Memᴰ.head p) = ground arith
Mem→is_in t (x ∷ xs) (Memᴰ.tail m) = ground (arith, Mem→is_in t xs m)

pub is_in_iff : (t : String) (xs : List String) → (is_in t xs ≡ true) ↔ Memᴰ t xs
is_in_iff t xs = (is_in→Mem t xs, Mem→is_in t xs)

cons≢nil : {c : ℕ} {r : List ℕ} → ◌≢◌ {A = List ℕ} (c ∷ r) []
cons≢nil h = cc

-- A text that begins with one that is not empty is not empty.
pub format-ne-empty : (s : String) (r : List String) → s ≢ "" → format (s ∷ r) ≢ ""
format-ne-empty s r h e = h ((append-eq-nil_iff {p = s}).0 e).0

pub has_code : {c : ℕ} {r : List ℕ} (s : String) → codes s ≡ c ∷ r → s ≢ ""
has_code s h e = absurd (cons≢nil (sym h ∙ ap codes e))
