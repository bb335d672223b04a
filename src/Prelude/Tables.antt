-- ===== src/Prelude/Tables.antt =====
-- Database tables as lists of rows, newest first, and the queries and writes that the services make.
use Prim.Native.Nat.{ℕ, zero, suc, ◌≤◌}
use mathlib.Core.Path.{◌≡◌, refl, subst, sym, ap, ◌∙◌}
use mathlib.Core.Logic.{◌≢◌, inl, inr}
use mathlib.Core.Bool.{Bool, true, false, ◌||◌}
use mathlib.Core.Option.{Option, none, some}
use mathlib.Core.List.{List, [], ◌∷◌}
use native.Mathlib.Omega.{arith}
use plynth.Prelude.Tests.{◌==◌, if◌then◌else◌, Bool-cases}

module _ {ℓ} {A : Type ℓ} where
  abbrev pub length : List A → ℕ
  length [] = 0
  length (x ∷ xs) = suc (length xs)

  abbrev pub take : ℕ → List A → List A
  take zero xs = []
  take (suc n) [] = []
  take (suc n) (x ∷ xs) = x ∷ take n xs

  abbrev pub drop : ℕ → List A → List A
  drop zero xs = xs
  drop (suc n) [] = []
  drop (suc n) (x ∷ xs) = drop n xs

  -- `db.scalar(select(T).where(p))`: the first row that the query returns.
  abbrev pub find? : (A → Bool) → List A → Option A
  find? p [] = none
  find? p (x ∷ xs) = let rest = find? p xs in if p x then some x else rest

  -- `db.scalars(select(T).where(p)).all()`
  abbrev pub select : (A → Bool) → List A → List A
  select p [] = []
  select p (x ∷ xs) = let rest = select p xs in if p x then x ∷ rest else rest

  abbrev pub any : (A → Bool) → List A → Bool
  any p [] = false
  any p (x ∷ xs) = p x || any p xs

  -- The flush of a changed object: the row with its id is rewritten.
  abbrev pub save : (A → ℕ) → A → List A → List A
  save key row [] = []
  save key row (x ∷ xs) = (if key x == key row then row else x) ∷ save key row xs

  -- `db.delete(row)`
  abbrev pub remove : (A → ℕ) → ℕ → List A → List A
  remove key i [] = []
  remove key i (x ∷ xs) = let rest = remove key i xs in if key x == i then rest else x ∷ rest

  abbrev pub All {κ} : (A → Type κ) → List A → Type κ
  All P [] = Unit
  All P (x ∷ xs) = P x × All P xs

module _ {ℓ} {A : Type ℓ} (p : A → Bool) where
  pub find?-holds : (xs : List A) (a : A) → find? p xs ≡ some a → p a ≡ true
  find?-holds [] a e = cc
  find?-holds (x ∷ xs) a e = ground (arith, find?-holds xs a)

  pub find?-none : (xs : List A) → find? p xs ≡ none → All (λ x. p x ≡ false) xs
  find?-none [] e = tt
  find?-none (x ∷ xs) e = ground (arith, find?-none xs)

  pub find?-All {κ} : (P : A → Type κ) (xs : List A) (a : A) → All P xs → find? p xs ≡ some a → P a
  find?-All P [] a h e = cc
  find?-All P (x ∷ xs) a h e = elim (Bool-cases (p x)) [
    | inl yes_here ↦ subst P (ground arith) h.0
    | inr not_here ↦ find?-All P xs a h.1 (ground arith)
  ]

-- After the flush of `row`, found by `p` before, the query finds the row as it is written.
module _ {ℓ} {A : Type ℓ} (p : A → Bool) (key : A → ℕ) where
  pub find?-save :
      (xs : List A) (old row : A)
      → find? p xs ≡ some old
      → key row ≡ key old
      → p row ≡ true
      → find? p (save key row xs) ≡ some row
  find?-save [] old row e k h = cc
  find?-save (x ∷ xs) old row e k h = ground (arith, find?-save xs old row)

-- What holds of each row after one is written.
pub All-save {ℓ κ} :
    {A : Type ℓ} (P Q : A → Type κ) (key : A → ℕ) (row : A) (xs : List A)
    → ((x : A) → P x → key x ≢ key row → Q x)
    → Q row
    → All P xs
    → All Q (save key row xs)
All-save P Q key row [] keep new h = tt
All-save P Q key row (x ∷ xs) keep new h =
    let rest = All-save P Q key row xs keep new h.1 in
    elim (Bool-cases (key x == key row)) [
      | inl same ↦ (rw same new, rest)
      | inr other ↦ (rw other (keep x h.0 (ground arith)), rest)
    ]

pub All-map {ℓ κ μ} :
    {A : Type ℓ} (P : A → Type κ) (Q : A → Type μ) (xs : List A)
    → ((x : A) → P x → Q x)
    → All P xs
    → All Q xs
All-map P Q [] f h = tt
All-map P Q (x ∷ xs) f h = (f x h.0, All-map P Q xs f h.1)

pub All-zip {ℓ κ μ} :
    {A : Type ℓ} (P : A → Type κ) (Q : A → Type μ) (xs : List A)
    → All P xs
    → All Q xs
    → All (λ x. P x × Q x) xs
All-zip P Q [] f h = tt
All-zip P Q (x ∷ xs) f h = ((f.0, h.0), All-zip P Q xs f.1 h.1)

-- No two rows have one identifier.
abbrev pub Distinct {ℓ} : {A : Type ℓ} → (A → ℕ) → List A → Type 0
Distinct key [] = Unit
Distinct key (x ∷ xs) = All (λ y. key y ≢ key x) xs × Distinct key xs

module _ {ℓ} {A : Type ℓ} (key : A → ℕ) where
  All-ne-save :
      (row : A) (i : ℕ) (xs : List A)
      → All (λ y. key y ≢ i) xs
      → All (λ y. key y ≢ i) (save key row xs)
  All-ne-save row i [] h = tt
  All-ne-save row i (x ∷ xs) h = elim (Bool-cases (key x == key row)) [
    | inl same ↦ (rw same (ground arith), All-ne-save row i xs h.1)
    | inr other ↦ (rw other h.0, All-ne-save row i xs h.1)
  ]

  pub Distinct-save : (row : A) (xs : List A) → Distinct key xs → Distinct key (save key row xs)
  Distinct-save row [] h = tt
  Distinct-save row (x ∷ xs) h = elim (Bool-cases (key x == key row)) [
    | inl same ↦ (
      rw same (All-ne-save row (key row) xs (rw (sym (same_key same)) h.0)),
      Distinct-save row xs h.1,
    )
    | inr other ↦ (rw other (All-ne-save row (key x) xs h.0), Distinct-save row xs h.1)
  ]
    where
      same_key : (key x == key row) ≡ true → key x ≡ key row
      same_key e = ground arith

  -- Among rows with distinct identifiers, a found row is the one with its identifier.
  pub Distinct-find :
      (p : A → Bool) (xs : List A) (a : A)
      → Distinct key xs
      → find? p xs ≡ some a
      → All (λ x. key x ≡ key a → x ≡ a) xs
  Distinct-find p [] a d e = tt
  Distinct-find p (x ∷ xs) a d e = elim (Bool-cases (p x)) [
    | inl here ↦ (
      λ _. some_inj here,
      All-map (λ y. key y ≢ key x) (λ y. key y ≡ key a → y ≡ a) xs
          (λ y ne eq. absurd (ne (eq ∙ sym (ap key (some_inj here))))) d.0,
    )
    | inr not_here ↦ (
      λ eq. absurd (find?-All p (λ y. key y ≢ key x) xs a d.0 (rest not_here) (sym eq)),
      Distinct-find p xs a d.1 (rest not_here),
    )
  ]
    where
      some_inj : p x ≡ true → x ≡ a
      some_inj h = ground arith

      rest : p x ≡ false → find? p xs ≡ some a
      rest h = ground arith

  -- A query after a flush: it finds what it found before, as it is written now, if the written row
  -- answers the query as the row that it replaces does.
  pub find?-save_any :
      (q : A → Bool) (b row : A) (xs : List A) (a : A)
      → All (λ x. key x ≡ key b → x ≡ b) xs
      → key row ≡ key b
      → q row ≡ q b
      → find? q xs ≡ some a
      → find? q (save key row xs) ≡ some (if key a == key row then row else a)
  find?-save_any q b row [] a h k e f = cc
  find?-save_any q b row (x ∷ xs) a h k e f = elim (Bool-cases (key x == key row)) [
    | inl same ↦ rw same (ground (arith, h.0 (ground arith), find?-save_any q b row xs a h.1 k e))
    | inr other ↦ rw other (ground (arith, find?-save_any q b row xs a h.1 k e))
  ]

module _ {ℓ} {A : Type ℓ} where
  -- Every row that a query returns answers it.
  pub All-select : (p : A → Bool) (xs : List A) → All (λ x. p x ≡ true) (select p xs)
  All-select p [] = tt
  All-select p (x ∷ xs) = elim (Bool-cases (p x)) [
    | inl here ↦ rw here (here, All-select p xs)
    | inr other ↦ rw other (All-select p xs)
  ]

  pub All-select_kept {κ} :
      (P : A → Type κ) (p : A → Bool) (xs : List A) → All P xs → All P (select p xs)
  All-select_kept P p [] h = tt
  All-select_kept P p (x ∷ xs) h = elim (Bool-cases (p x)) [
    | inl here ↦ rw here (h.0, All-select_kept P p xs h.1)
    | inr other ↦ rw other (All-select_kept P p xs h.1)
  ]

  pub All-take {κ} : (P : A → Type κ) (n : ℕ) (xs : List A) → All P xs → All P (take n xs)
  All-take P zero xs h = tt
  All-take P (suc n) [] h = tt
  All-take P (suc n) (x ∷ xs) h = (h.0, All-take P n xs h.1)

  pub length-take_le : (n : ℕ) (xs : List A) → length (take n xs) ≤ n
  length-take_le zero xs = omega arith
  length-take_le (suc n) [] = omega arith
  length-take_le (suc n) (x ∷ xs) = omega (arith, length-take_le n xs)

  pub length-save : (key : A → ℕ) (row : A) (xs : List A) → length (save key row xs) ≡ length xs
  length-save key row [] = refl
  length-save key row (x ∷ xs) = ap suc (length-save key row xs)

module _ {ℓ} {A : Type ℓ} (key : A → ℕ) where
  -- A row is looked up by its identifier.
  abbrev pub by_id : ℕ → A → Bool
  by_id i x = key x == i

  pub find_by_id-save_ne :
      (row : A) (i : ℕ) (xs : List A)
      → key row ≢ i
      → find? (by_id i) (save key row xs) ≡ find? (by_id i) xs
  find_by_id-save_ne row i [] ne = refl
  find_by_id-save_ne row i (x ∷ xs) ne = elim (Bool-cases (key x == key row)) [
    | inl same ↦ rw same (ground (arith, find_by_id-save_ne row i xs ne))
    | inr other ↦ rw other (ground (arith, find_by_id-save_ne row i xs ne))
  ]

  pub find_by_id-save_self :
      (row old : A) (i : ℕ) (xs : List A)
      → find? (by_id i) xs ≡ some old
      → key row ≡ key old
      → find? (by_id i) (save key row xs) ≡ some row
  find_by_id-save_self row old i xs e same =
      find?-save (by_id i) key xs old row e same
        (ap (λ v. v == i) same ∙ find?-holds (by_id i) xs old e)
