-- ===== src/Exec.antt =====
-- A service call: it works on the state and may raise one of the exceptions of
-- app/core/exceptions.py, or one of Python's. What was written before a raise is still in the
-- session, so the state comes back beside the error too.
use plynth.Prelude.{ℕ, ◌+◌, Bool, true, false, Option, none, some, ◌≡◌, inl, inr, refl, ◌⊎◌, ◌≢◌}
use plynth.World.{World, next_id}

pub data Error : Type 0 where
  not_found conflict validation_failed forbidden unauthorized insufficient_credits : Error
  value_error runtime_error key_error integrity_error provider_error crypto_not_configured : Error

pub data Result {ℓ} (A : Type ℓ) : Type ℓ where
  ok : A → Result A
  err : Error → Result A

abbrev pub Action : Type 0 → Type 0
Action A = World → Result A × World

module _ {A : Type 0} where
  abbrev pub pure : A → Action A
  pure a w = (ok a, w)

  abbrev pub raise : Error → Action A
  raise e w = (err e, w)

  abbrev pub gets : (World → A) → Action A
  gets f w = (ok (f w), w)

  abbrev pub lift : Result A → Action A
  lift r w = (r, w)

  -- `if x is None: raise ...`
  abbrev pub or_raise : Option A → Error → Action A
  or_raise none e = raise e
  or_raise (some a) e = pure a

abbrev pub resume : {A B : Type 0} → Result A → (A → Action B) → Action B
resume (ok a) f w = f a w
resume (err e) f w = (err e, w)

infixl 5 ◌>>=◌ ◌>>◌
abbrev pub ◌>>=◌ : {A B : Type 0} → Action A → (A → Action B) → Action B
◌>>=◌ m f w = let (r, w') = m w in resume r f w'

abbrev pub ◌>>◌ : {A B : Type 0} → Action A → Action B → Action B
m >> k = m >>= λ _. k

abbrev pub raise_if : Bool → Error → Action (Unit {0})
raise_if true e = raise e
raise_if false e = pure tt

abbrev pub modify : (World → World) → Action (Unit {0})
modify f w = (ok tt, f w)

-- `if cond: ...` around a block with no result
abbrev pub when : Bool → Action (Unit {0}) → Action (Unit {0})
when true m = m
when false m = pure tt

-- `uuid4()`, taken as the primary key of a new row
abbrev pub new_id : Action ℕ
new_id w = (ok (next_id w), record w { drawn = w.drawn + 1 })

abbrev pub now : Action ℕ
now w = (ok w.env.now, w)

-- `m` keeps `P`, whether it returns or raises.
abbrev pub Keeps : {A : Type 0} → (World → Type 0) → Action A → Type 0
Keeps P m = (w : World) → P w → P (m w).1

pub Keeps-bind :
    {A B : Type 0} (P : World → Type 0) (m : Action A) (f : A → Action B)
    → Keeps P m
    → ((a : A) → Keeps P (f a))
    → Keeps P (m >>= f)
Keeps-bind {A = A} P m f km kf w h = go (m w).0 (m w).1 (km w h)
  where
    go : (r : Result A) (w' : World) → P w' → P (resume r f w').1
    go (ok a) w' p = kf a w' p
    go (err e) w' p = p

pub ok-injective : {A : Type 0} {a b : A} → ok a ≡ ok b → a ≡ b
ok-injective e = cc

pub Result-cases :
    {A : Type 0} (r : Result A) → ((a : A) × (r ≡ ok a)) ⊎ ((e : Error) × (r ≡ err e))
Result-cases (ok a) = inl (a, refl)
Result-cases (err e) = inr (e, refl)

pub err_ne_ok : {A : Type 0} {e : Error} {a : A} → err e ≢ ok a
err_ne_ok h = cc

-- A call that returns went through each of its guards, and goes on from there.
pub raise_if-ok :
    {A : Type 0} (b : Bool) (e : Error) (k : Action A) (w : World) {a : A}
    → ((raise_if b e >> k) w).0 ≡ ok a
    → (b ≡ false) × ((k w).0 ≡ ok a) × ((raise_if b e >> k) w ≡ k w)
raise_if-ok true e k w h = absurd (err_ne_ok h)
raise_if-ok false e k w h = (refl, h, refl)

pub or_raise-ok :
    {A B : Type 0} (o : Option A) (e : Error) (k : A → Action B) (w : World) {b : B}
    → ((or_raise o e >>= k) w).0 ≡ ok b
    → (a : A) × (o ≡ some a) × ((k a w).0 ≡ ok b) × ((or_raise o e >>= k) w ≡ k a w)
or_raise-ok none e k w h = absurd (err_ne_ok h)
or_raise-ok (some a) e k w h = (a, refl, h, refl)
