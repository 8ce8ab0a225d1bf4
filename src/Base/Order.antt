-- ===== src/Base/Order.antt =====
-- A select's `order_by` on a number, where rows with the same number stay in their order.
use Prim.Native.Nat.{ℕ, suc, ◌≤◌}
use mathlib.Core.Path.{◌≡◌, refl}
use mathlib.Core.Logic.{inl, inr}
use mathlib.Core.List.{List, [], ◌∷◌}
use native.Mathlib.Omega.{arith}
use control_architecture.Base.Equality.{if◌then◌else◌, leb, if_case, Bool-cases}
use control_architecture.Base.Table.{length, All, All-map}

module _ {ℓ} {A : Type ℓ} (key : A → ℕ) where
  unfoldable pub insert_by : A → List A → List A
  insert_by a [] = a ∷ []
  insert_by a (x ∷ xs) =
      let rest = insert_by a xs in if leb (key a) (key x) then a ∷ x ∷ xs else x ∷ rest

  unfoldable pub order_by : List A → List A
  unfolding insert_by
  order_by [] = []
  order_by (a ∷ r) = insert_by a (order_by r)

  length-insert_by : (a : A) (xs : List A) → length (insert_by a xs) ≡ suc (length xs)
  unfolding insert_by
  length-insert_by a [] = refl
  length-insert_by a (x ∷ xs) = ground (arith, length-insert_by a xs)

  pub length-order_by : (xs : List A) → length (order_by xs) ≡ length xs
  unfolding order_by
  length-order_by [] = refl
  length-order_by (x ∷ xs) = omega (arith, length-insert_by x (order_by xs), length-order_by xs)

  module _ {κ} (P : A → Type κ) where
    All-insert_by : (a : A) (xs : List A) → P a → All P xs → All P (insert_by a xs)
    unfolding insert_by
    All-insert_by a [] p h = (p, h)
    All-insert_by a (x ∷ xs) p h =
        if_case (All P) (leb (key a) (key x)) (p, h) (h.0, All-insert_by a xs p h.1)

    pub All-order_by : (xs : List A) → All P xs → All P (order_by xs)
    unfolding order_by
    All-order_by [] h = h
    All-order_by (x ∷ xs) h = All-insert_by x (order_by xs) h.0 (All-order_by xs h.1)

    -- And what holds of every row of the ordered list holds of the rows.
    All-insert_by_back : (a : A) (xs : List A) → All P (insert_by a xs) → P a × All P xs
    unfolding insert_by
    All-insert_by_back a [] h = h
    All-insert_by_back a (x ∷ xs) h = elim (Bool-cases (leb (key a) (key x))) [
      | inl e ↦ let k : All P (a ∷ x ∷ xs) = rw e at h in k
      | inr e ↦
          let k : All P (x ∷ insert_by a xs) = rw e at h in
          let (p, r) = All-insert_by_back a xs k.1 in (p, (k.0, r))
    ]

    pub All-order_by_back : (xs : List A) → All P (order_by xs) → All P xs
    unfolding order_by
    All-order_by_back [] h = h
    All-order_by_back (x ∷ xs) h =
        let (p, r) = All-insert_by_back x (order_by xs) h in (p, All-order_by_back xs r)

  -- Each row is at most the later ones.
  abbrev pub IsSorted : List A → Type 0
  IsSorted [] = Unit
  IsSorted (x ∷ xs) = All (λ y. key x ≤ key y) xs × IsSorted xs

  insert_by-IsSorted : (a : A) (xs : List A) → IsSorted xs → IsSorted (insert_by a xs)
  unfolding insert_by
  insert_by-IsSorted a [] h = (tt, tt)
  insert_by-IsSorted a (x ∷ xs) h =
      let rest = insert_by-IsSorted a xs h.1 in
      elim (Bool-cases (leb (key a) (key x))) [
        | inl e ↦
            let low : key a ≤ key x = ground (arith, e) in
            rw e ((low, All-map _ _ xs (λ y k. omega (arith, low, k)) h.0), h)
        | inr e ↦
            let high : key x ≤ key a = ground (arith, e) in
            rw e (All-insert_by (λ y. key x ≤ key y) a xs high h.0, rest)
      ]

  pub order_by-IsSorted : (xs : List A) → IsSorted (order_by xs)
  unfolding order_by
  order_by-IsSorted [] = tt
  order_by-IsSorted (x ∷ xs) = insert_by-IsSorted x (order_by xs) (order_by-IsSorted xs)
