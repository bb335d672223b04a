-- ===== src/Access/Expiry.antt =====
-- app/core/dependencies.py, `_enforce_tenant_expiry`: the walk over a tenant's parents ends, and it
-- ends with the right answer, also when the parents go round in a circle.
use plynth.Access.{is_past, forbidden, walk_parents, enforce_tenant_expiry}
use plynth.Models.Tenant.{Tenant}
use plynth.World.{World}
use plynth.Prelude.{
  [], ◌∷◌, some, none, true, false, zero, suc, inl, inr, refl, ℕ, List, Bool, Option, any, find?,
  ◌≡◌, if◌then◌else◌, ◌≤◌, ◌==◌, ◌+◌, arith, length, ap, ◌<◌, Bool-cases, ==_true, ◌⊎◌, subst, ◌∙◌,
  Option-cases, ◌≢◌, true_ne_false, sym,
}
use plynth.Exec.{ok, err, Result}

abbrev mem : ℕ → List ℕ → Bool
mem i seen = any (λ s. s == i) seen

abbrev row_of : World → ℕ → Option Tenant
row_of w i = find? (λ t. t.id == i) w.tenants

-- The rows that `parent_id` leads to from an identifier, the row with that identifier included
pub data Ancestor (w : World) : ℕ → Tenant → Type 0 where
  here : (i : ℕ) (t : Tenant) → row_of w i ≡ some t → Ancestor w i t
  up :
      (i : ℕ) (t : Tenant) (p : ℕ) (u : Tenant)
      → row_of w i ≡ some t
      → t.parent_id ≡ some p
      → Ancestor w p u
      → Ancestor w i u

-- How many tenants the walk has not seen yet
abbrev unseen : List ℕ → List Tenant → ℕ
unseen seen [] = 0
unseen seen (t ∷ ts) = (if mem t.id seen then 0 else 1) + unseen seen ts

unseen_le : (c : ℕ) (seen : List ℕ) (ts : List Tenant) → unseen (c ∷ seen) ts ≤ unseen seen ts
unseen_le c seen [] = omega arith
unseen_le c seen (t ∷ ts) = ground (arith, unseen_le c seen ts)

unseen_nil : (ts : List Tenant) → unseen [] ts ≡ length ts
unseen_nil [] = refl
unseen_nil (t ∷ ts) = omega (arith, unseen_nil ts)

unseen_lt :
    (c : ℕ) (seen : List ℕ) (ts : List Tenant) (row : Tenant)
    → mem c seen ≡ false
    → find? (λ t. t.id == c) ts ≡ some row
    → unseen (c ∷ seen) ts < unseen seen ts
unseen_lt c seen [] row out e = cc
unseen_lt c seen (t ∷ ts) row out e = elim (Bool-cases (t.id == c)) [
  | inl hit ↦ let same = ==_true t.id c hit in rw (same, out) (ground (arith, unseen_le c seen ts))
  | inr miss ↦ ground (arith, unseen_lt c seen ts row out)
]

abbrev is_expired : World → Tenant → Bool
is_expired w t = is_past w.env.now t.expires_at

-- No row that the parents of `i` lead to has expired.
abbrev pub Clear : World → ℕ → Type 0
Clear w i = (u : Tenant) → Ancestor w i u → is_expired w u ≡ false

abbrev pub Expired : World → ℕ → Type 0
Expired w i = (u : Tenant) × Ancestor w i u × (is_expired w u ≡ true)

-- What the walk knows: the rows it saw have not expired, and their parents are seen or come next.
abbrev Passed : World → List ℕ → Option ℕ → Type 0
Passed w seen next =
    (s : ℕ) (t : Tenant)
    → mem s seen ≡ true
    → row_of w s ≡ some t
    → (is_expired w t ≡ false)
      × ((p : ℕ) → t.parent_id ≡ some p → (mem p seen ≡ true) ⊎ (next ≡ some p))

Ancestor-row :
    (w : World) (i : ℕ) (u : Tenant) → Ancestor w i u → (t : Tenant) × (row_of w i ≡ some t)
Ancestor-row w i u (here _ _ r) = (u, r)
Ancestor-row w i u (up _ t p _ r q a) = (t, r)

-- When nothing comes next, the rows seen are closed under parents.
Clear-seen :
    (w : World) (seen : List ℕ) (next : Option ℕ)
    → Passed w seen next
    → ((p : ℕ) (t : Tenant) → next ≡ some p → row_of w p ≡ some t → mem p seen ≡ true)
    → (s : ℕ) (u : Tenant) → mem s seen ≡ true
    → Ancestor w s u
    → is_expired w u ≡ false
Clear-seen w seen next known done s u e (here _ _ r) = (known s u e r).0
Clear-seen w seen next known done s u e (up _ t p _ r q a) =
    Clear-seen w seen next known done p u (parent_seen ((known s t e r).1 p q)) a
  where
    parent_seen : (mem p seen ≡ true) ⊎ (next ≡ some p) → mem p seen ≡ true
    parent_seen (inl h) = h
    parent_seen (inr h) = let (v, f) = Ancestor-row w p u a in done p v h f

-- The rows seen after one more
Passed-next :
    (w : World) (seen : List ℕ) (c : ℕ) (row : Tenant)
    → row_of w c ≡ some row
    → is_expired w row ≡ false
    → Passed w seen (some c)
    → Passed w (c ∷ seen) row.parent_id
Passed-next w seen c row found live known s t e r = elim (Bool-cases (c == s)) [
  | inl hit ↦
      let same = row_eq (==_true c s hit) in
      (subst (λ x. is_expired w x ≡ false) same live, λ p q. inr (ap (λ x. x.parent_id) same ∙ q))
  | inr miss ↦ let old = known s t (rest miss) r in (old.0, λ p q. inl (seen_next p (old.1 p q)))
]
  where
    row_eq : c ≡ s → row ≡ t
    row_eq h = cc

    rest : (c == s) ≡ false → mem s seen ≡ true
    rest h = ground arith

    seen_next : (p : ℕ) → (mem p seen ≡ true) ⊎ (some c ≡ some p) → mem p (c ∷ seen) ≡ true
    seen_next p h = ground arith

-- What the walk answers from `next` on
abbrev Verdict : World → List ℕ → Option ℕ → Option (Result (Unit {0})) → Type 0
Verdict w seen next o =
    ((o ≡ some (ok tt)) × ((s : ℕ) → (mem s seen ≡ true) ⊎ (next ≡ some s) → Clear w s))
    ⊎ ((o ≡ some (err forbidden)) × ((c : ℕ) × (next ≡ some c) × Expired w c))

-- The walk stops with everything seen: nothing it was asked about has expired.
Clear-stop :
    (w : World) (seen : List ℕ) (next : Option ℕ)
    → Passed w seen next
    → ((p : ℕ) (t : Tenant) → next ≡ some p → row_of w p ≡ some t → mem p seen ≡ true)
    → (s : ℕ) → (mem s seen ≡ true) ⊎ (next ≡ some s)
    → Clear w s
Clear-stop w seen next known done s (inl h) u a = Clear-seen w seen next known done s u h a
Clear-stop w seen next known done s (inr h) u a =
    let (t, f) = Ancestor-row w s u a in Clear-seen w seen next known done s u (done s t h f) a

Verdict-next :
    (w : World) (seen : List ℕ) (c : ℕ) (row : Tenant) (o : Option (Result (Unit {0})))
    → row_of w c ≡ some row
    → Verdict w (c ∷ seen) row.parent_id o
    → Verdict w seen (some c) o
Verdict-next w seen c row o found (inl (e, clear)) = inl (e, λ s h. clear s (inl (sooner s h)))
  where
    sooner : (s : ℕ) → (mem s seen ≡ true) ⊎ (some c ≡ some s) → mem s (c ∷ seen) ≡ true
    sooner s h = ground arith
Verdict-next w seen c row o found (inr (e, (p, q, (u, a, late)))) =
    inr (e, (c, refl, (u, up c row p u found q a, late)))

walk-Verdict :
    (fuel : ℕ) (seen : List ℕ) (next : Option ℕ) (w : World)
    → unseen seen w.tenants < fuel
    → Passed w seen next
    → Verdict w seen next (walk_parents fuel seen next w)
unfolding walk_parents
walk-Verdict fuel seen none w enough known =
    inl (refl, Clear-stop w seen none known (λ p t h r. cc))
walk-Verdict zero seen (some c) w enough known = absurd (omega (arith, enough))
walk-Verdict (suc fuel) seen (some c) w enough known = elim (Bool-cases (mem c seen)) [
  | inl again ↦
      rw (again, walk_parents)
        (inl (
          refl,
          Clear-stop w seen (some c) known
              (λ p t h r. subst (λ i. mem i seen ≡ true) (some_eq p h) again),
        ))
  | inr first ↦
      rw (first, walk_parents)
        (elim (Option-cases (row_of w c)) [
          | inl gone ↦
              rw (gone, walk_parents)
                (inl (
                  refl,
                  Clear-stop w seen (some c) known (λ p t h r. absurd (no_row p t h r gone)),
                ))
          | inr (row, found) ↦
              rw (found, walk_parents)
                (elim (Bool-cases (is_expired w row)) [
                  | inl late ↦
                      rw (late, walk_parents) (inr (refl, (c, refl, (row, here c row found, late))))
                  | inr live ↦
                      rw (live, walk_parents)
                        (Verdict-next w seen c row _ found (
                          walk-Verdict fuel (c ∷ seen) row.parent_id w (fewer row first found)
                            (Passed-next w seen c row found live known)))
                ])
        ])
]
  where
    some_eq : (p : ℕ) → some c ≡ some p → c ≡ p
    some_eq p h = cc

    no_row : (p : ℕ) (t : Tenant) → some c ≡ some p → row_of w p ≡ some t → row_of w c ≢ none
    no_row p t h r = cc

    fewer :
        (row : Tenant)
        → mem c seen ≡ false
        → row_of w c ≡ some row
        → unseen (c ∷ seen) w.tenants < fuel
    fewer row first found = omega (arith, enough, unseen_lt c seen w.tenants row first found)

-- From any tenant the walk over the parents ends within the rounds that it is given, also when the
-- parents form a circle: it returns, and then no row that the parents lead to has expired, or it
-- raises Forbidden, and then one of them has.
pub enforce_tenant_expiry-Clear :
    (tenant_id : ℕ) (w : World)
    → ((enforce_tenant_expiry tenant_id w ≡ some (ok tt)) × Clear w tenant_id)
      ⊎ ((enforce_tenant_expiry tenant_id w ≡ some (err forbidden)) × Expired w tenant_id)
unfolding enforce_tenant_expiry
enforce_tenant_expiry-Clear i w =
    elim (walk-Verdict (suc (length w.tenants)) [] (some i) w (omega (arith, unseen_nil w.tenants))
      (λ s t h r. absurd (true_ne_false (sym h)))) [
        | inl (e, clear) ↦ inl (e, clear i (inr refl))
        | inr (e, (c, same, (u, a, late))) ↦
            inr (e, (u, subst (λ k. Ancestor w k u) (sym (some_inj same)) a, late))
      ]
  where
    some_inj : {a b : ℕ} → some a ≡ some b → a ≡ b
    some_inj h = cc
