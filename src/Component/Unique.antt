-- ===== src/Component/Unique.antt =====
-- Queries that answer with one row at most, and the dicts that the code builds from rows.

-- A unique constraint, on the rows that answer `p`.
use plynth.Component.Access.{find_last}
use plynth.Prelude.{
  [], ◌∷◌, some, none, true, false, inl, inr, refl, Bool, List, ◌≡◌, ◌&&◌, All, any, find?, select,
  ◌||◌, map, ◌∙◌, Option, Bool-cases, ap, arith, if◌then◌else◌, sym,
}

abbrev pub AtMostOne {ℓ} : {A : Type ℓ} → (A → Bool) → List A → Type ℓ
AtMostOne p [] = Unit
AtMostOne p (x ∷ xs) = (p x ≡ true → find? p xs ≡ none) × AtMostOne p xs

module _ {ℓ} {A : Type ℓ} where
  -- The last of the rows, by the row at the front and the last of the rest.
  abbrev or_front : Bool → A → Option A → Option A
  or_front b x (some y) = some y
  or_front true x none = some x
  or_front false x none = none

  last-cons :
      (p : A → Bool) (x : A) (xs : List A)
      → find_last p (x ∷ xs) ≡ or_front (p x) x (find_last p xs)
  last-cons p x xs = go (p x) (find_last p xs)
    where
      go :
          (b : Bool) (o : Option A)
          → (elim o [ some y ↦ some y | none ↦ if b then some x else none ]) ≡ or_front b x o
      go b (some y) = refl
      go true none = refl
      go false none = refl

  or_front-false : (x : A) (o : Option A) → or_front false x o ≡ o
  or_front-false x none = refl
  or_front-false x (some y) = refl

  pub last-find? : (p : A → Bool) (xs : List A) → AtMostOne p xs → find_last p xs ≡ find? p xs
  last-find? p [] one = refl
  last-find? p (x ∷ xs) one =
      last-cons p x xs ∙ (ap (or_front (p x) x) (last-find? p xs one.1) ∙ front)
    where
      front : or_front (p x) x (find? p xs) ≡ find? p (x ∷ xs)
      front = elim (Bool-cases (p x)) [
        | inl here ↦ rw here (ap (or_front true x) (one.0 here))
        | inr other ↦ rw other (or_front-false x (find? p xs))
      ]

  pub last-select :
      (q r p : A → Bool) (xs : List A)
      → ((x : A) → (r x && q x) ≡ p x)
      → find_last q (select r xs) ≡ find_last p xs
  last-select q r p [] e = refl
  last-select q r p (x ∷ xs) e = elim (Bool-cases (r x)) [
    | inl kept ↦ rw kept (
        last-cons q x (select r xs)
        ∙ ((λ i. or_front (agrees kept i) x (last-select q r p xs e i)) ∙ sym (last-cons p x xs)))
    | inr dropped ↦ rw dropped (
        last-select q r p xs e
        ∙ (sym (or_front-false x (find_last p xs))
            ∙ ((λ i. or_front (not_in dropped i) x (find_last p xs)) ∙ sym (last-cons p x xs))))
  ]
    where
      agrees : r x ≡ true → q x ≡ p x
      agrees kept = ground (arith, e x)

      not_in : r x ≡ false → false ≡ p x
      not_in dropped = ground (arith, e x)

  pub any-cong : (P Q : A → Bool) (xs : List A) → All (λ x. P x ≡ Q x) xs → any P xs ≡ any Q xs
  any-cong P Q [] h = refl
  any-cong P Q (x ∷ xs) h = λ i. h.0 i || any-cong P Q xs h.1 i

  abbrev pub answer : (A → Bool) → Option A → Bool
  answer q none = false
  answer q (some x) = q x

  pub any_one :
      (p q : A → Bool) (xs : List A)
      → AtMostOne p xs
      → any (λ x. p x && q x) xs ≡ answer q (find? p xs)
  any_one p q [] one = refl
  any_one p q (x ∷ xs) one = elim (Bool-cases (p x)) [
    | inl here ↦
        rw here
          (ap (λ b. q x || b) (any_one p q xs one.1 ∙ ap (answer q) (one.0 here)) ∙ or_false (q x))
    | inr other ↦ rw other (any_one p q xs one.1)
  ]
    where
      or_false : (b : Bool) → (b || false) ≡ b
      or_false b = ground arith

  pub any-map_lem :
      {B : Type ℓ} (Q : B → Bool) (f : A → B) (xs : List A)
      → any Q (map f xs) ≡ any (λ x. Q (f x)) xs
  any-map_lem Q f [] = refl
  any-map_lem Q f (x ∷ xs) = ap (λ b. Q (f x) || b) (any-map_lem Q f xs)

  pub any-select : (P r : A → Bool) (xs : List A) → any P (select r xs) ≡ any (λ x. r x && P x) xs
  any-select P r [] = refl
  any-select P r (x ∷ xs) = elim (Bool-cases (r x)) [
    | inl kept ↦ rw kept (ap (λ b. P x || b) (any-select P r xs))
    | inr dropped ↦ rw dropped (any-select P r xs)
  ]
