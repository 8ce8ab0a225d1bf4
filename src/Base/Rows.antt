-- ===== src/Base/Rows.antt =====
-- Two lists whose rows agree pairwise, and what searches and updates make of them.
use mathlib.Core.Path.{◌≡◌, refl}
use mathlib.Core.Bool.{Bool}
use mathlib.Core.List.{List, [], ◌∷◌, ◌++◌}
use mathlib.Core.Logic.{inl, inr}
use mathlib.Core.Option.{Option, none, some}
use control_architecture.Base.Equality.{Bool-cases}
use control_architecture.Base.Table.{find, exists, update}

module _ {A : Type 0} {B : Type 0} (R : A → B → Type 0) where
  abbrev pub Pairwise : List A → List B → Type 0
  Pairwise [] [] = Unit
  Pairwise [] (b ∷ ys) = ⊥
  Pairwise (a ∷ xs) [] = ⊥
  Pairwise (a ∷ xs) (b ∷ ys) = R a b × Pairwise xs ys

  abbrev pub Agree : Option A → Option B → Type 0
  Agree none none = Unit
  Agree none (some b) = ⊥
  Agree (some a) none = ⊥
  Agree (some a) (some b) = R a b

  pub Pairwise-append :
      (xs : List A) (ys : List B) (a : A) (b : B)
      → Pairwise xs ys
      → R a b
      → Pairwise (xs ++ a ∷ []) (ys ++ b ∷ [])
  Pairwise-append [] [] a b h r = (r, tt)
  Pairwise-append [] (y ∷ ys) a b h r = absurd h
  Pairwise-append (x ∷ xs) [] a b h r = absurd h
  Pairwise-append (x ∷ xs) (y ∷ ys) a b h r = (h.0, Pairwise-append xs ys a b h.1 r)

  -- Conditions that agree on rows that do.
  module _ (p : A → Bool) (q : B → Bool) (same : (a : A) (b : B) → R a b → p a ≡ q b) where
    pub Pairwise-exists : (xs : List A) (ys : List B) → Pairwise xs ys → exists p xs ≡ exists q ys
    unfolding exists
    Pairwise-exists [] [] h = refl
    Pairwise-exists [] (y ∷ ys) h = absurd h
    Pairwise-exists (x ∷ xs) [] h = absurd h
    Pairwise-exists (x ∷ xs) (y ∷ ys) h = rw (same x y h.0, Pairwise-exists xs ys h.1)

    pub Pairwise-find : (xs : List A) (ys : List B) → Pairwise xs ys → Agree (find p xs) (find q ys)
    unfolding find
    Pairwise-find [] [] h = tt
    Pairwise-find [] (y ∷ ys) h = absurd h
    Pairwise-find (x ∷ xs) [] h = absurd h
    Pairwise-find (x ∷ xs) (y ∷ ys) h = elim (Bool-cases (q y)) [
      | inl e ↦ rw (same x y h.0, e) h.0
      | inr e ↦ rw (same x y h.0, e) (Pairwise-find xs ys h.1)
    ]

    pub Pairwise-update :
        (f : A → A) (g : B → B) (xs : List A) (ys : List B)
        → ((a : A) (b : B) → R a b → R (f a) (g b))
        → Pairwise xs ys
        → Pairwise (update p f xs) (update q g ys)
    unfolding update
    Pairwise-update f g [] [] k h = tt
    Pairwise-update f g [] (y ∷ ys) k h = absurd h
    Pairwise-update f g (x ∷ xs) [] k h = absurd h
    Pairwise-update f g (x ∷ xs) (y ∷ ys) k h = elim (Bool-cases (q y)) [
      | inl e ↦ rw (same x y h.0, e) (k x y h.0, Pairwise-update f g xs ys k h.1)
      | inr e ↦ rw (same x y h.0, e) (h.0, Pairwise-update f g xs ys k h.1)
    ]

  -- An update of the right rows alone that keeps the agreement.
  pub Pairwise-update_right :
      (q : B → Bool) (g : B → B) (xs : List A) (ys : List B)
      → ((a : A) (b : B) → R a b → R a (g b))
      → Pairwise xs ys
      → Pairwise xs (update q g ys)
  unfolding update
  Pairwise-update_right q g [] [] k h = tt
  Pairwise-update_right q g [] (y ∷ ys) k h = absurd h
  Pairwise-update_right q g (x ∷ xs) [] k h = absurd h
  Pairwise-update_right q g (x ∷ xs) (y ∷ ys) k h = elim (Bool-cases (q y)) [
    | inl e ↦ rw e (k x y h.0, Pairwise-update_right q g xs ys k h.1)
    | inr e ↦ rw e (h.0, Pairwise-update_right q g xs ys k h.1)
  ]

  -- And of the left rows.
  pub Pairwise-update_left :
      (p : A → Bool) (f : A → A) (xs : List A) (ys : List B)
      → ((a : A) (b : B) → R a b → R (f a) b)
      → Pairwise xs ys
      → Pairwise (update p f xs) ys
  unfolding update
  Pairwise-update_left p f [] [] k h = tt
  Pairwise-update_left p f [] (y ∷ ys) k h = absurd h
  Pairwise-update_left p f (x ∷ xs) [] k h = absurd h
  Pairwise-update_left p f (x ∷ xs) (y ∷ ys) k h = elim (Bool-cases (p x)) [
    | inl e ↦ rw e (k x y h.0, Pairwise-update_left p f xs ys k h.1)
    | inr e ↦ rw e (h.0, Pairwise-update_left p f xs ys k h.1)
  ]
