-- ===== src/Access/Current/Place.antt =====
-- app/core/dependencies.py: in which tenant a request works.
use plynth.Context.{set_acting_from_tenant}
use plynth.Access.Current.{enter_tenant}
use plynth.Rbac.{user_has_permission, list_user_permission_codes, binding_codes, role_codes}
use plynth.Access.ActAs.{gates, check_gates-gates}
use plynth.World.{World}
use plynth.Access.{
  resolve_act_as, check_gates, product_blocks, product_of, home_blocks, is_live_slug, home_of,
  act_as_permission, has_target_binding,
}
use plynth.Tenant.Children.{global_block, is_child_of}
use plynth.Models.Tenant.{User, Tenant}
use plynth.Prelude.{
  some, none, true, false, inl, inr, refl, Option, String, ◌≡◌, Bool, ◌⊎◌, Option-cases, find?,
  Bool-cases, ◌==◌, ap, holds, sym, ◌∙◌, ==_true, if◌then◌else◌, find?-holds, ℕ, subst, arith,
  is_given, ◌||◌, ◌&&◌, get_or,
}
use plynth.Exec.{ok, err, Result, ok-injective, err_ne_ok, Result-cases, resume}

-- What a user needs for acting as a child of the home tenant
abbrev pub MayEnter : User → World → Tenant → Type 0
MayEnter user w c =
    (is_child_of user c ≡ true)
    × (product_blocks (product_of user w) ≡ false)
    × (home_blocks (home_of user w) ≡ false)
    × ((user_has_permission user act_as_permission (some user.tenant_id) w ≡ ok true)
        ⊎ (has_target_binding user c.id w ≡ true))

gates-open :
    (block : Option String) (perm : Result Bool) (bound : Bool) (c d : Tenant)
    → gates block perm bound c ≡ ok d
    → (block ≡ none) × ((perm ≡ ok true) ⊎ (bound ≡ true)) × (c ≡ d)
gates-open (some why) perm bound c d e = cc
gates-open none (err x) bound c d e = cc
gates-open none (ok true) bound c d e = (refl, inl refl, ok-injective e)
gates-open none (ok false) true c d e = (refl, inr refl, ok-injective e)
gates-open none (ok false) false c d e = cc

no_block :
    (b c : Bool) (x y : String)
    → (if b then some x else (if c then some y else none)) ≡ none
    → (b ≡ false) × (c ≡ false)
no_block true c x y e = cc
no_block false true x y e = cc
no_block false false x y e = (refl, refl)

block-none :
    (user : User) (w : World)
    → global_block user w ≡ none
    → (product_blocks (product_of user w) ≡ false) × (home_blocks (home_of user w) ≡ false)
unfolding global_block
block-none user w e =
    no_block (product_blocks (product_of user w)) (home_blocks (home_of user w)) _ _ e

check_gates-MayEnter :
    (user : User) (t c : Tenant) (w : World)
    → is_child_of user t ≡ true
    → (check_gates user t w).0 ≡ ok c
    → MayEnter user w c
check_gates-MayEnter user t c w child done =
    let (free, allowed, same) = gates-open _ _ _ t c (sym (check_gates-gates user t w) ∙ done) in
    let (product, home) = block-none user w free in
    subst (MayEnter user w) same (child, product, home, allowed)

resolve_act_as-MayEnter :
    (user : User) (slug : String) (w : World) (c : Tenant)
    → (resolve_act_as user slug w).0 ≡ ok c
    → (c.id ≡ user.tenant_id) ⊎ MayEnter user w c
unfolding resolve_act_as
resolve_act_as-MayEnter user slug w c =
    elim (Option-cases (find? (is_live_slug user.product_id slug) w.tenants)) [
      | inl gone ↦ rw (gone, resolve_act_as) (λ done. absurd (err_ne_ok done))
      | inr (t, found) ↦
          rw (found, resolve_act_as)
            (elim (Bool-cases (t.id == user.tenant_id)) [
              | inl home ↦ rw home (λ done.
                  inl (ap (λ x. x.id) (sym (ok-injective done)) ∙ ==_true t.id user.tenant_id home))
              | inr away ↦ rw away (elim (Bool-cases (holds t.parent_id user.tenant_id)) [
                | inl child ↦
                    rw child
                      (λ done. inr (check_gates-MayEnter user t c w (is_child t child found) done))
                | inr stranger ↦ rw stranger (λ done. absurd (err_ne_ok done))
              ])
            ])
    ]
  where
    is_child :
        (t : Tenant)
        → holds t.parent_id user.tenant_id ≡ true
        → find? (is_live_slug user.product_id slug) w.tenants ≡ some t
        → is_child_of user t ≡ true
    is_child t child found =
        let live = find?-holds (is_live_slug user.product_id slug) w.tenants t found in
        rw child (ground (arith, live))

check_gates-unchanged : (user : User) (c : Tenant) (w : World) → (check_gates user c w).1 ≡ w
unfolding check_gates
check_gates-unchanged user c w = elim (Bool-cases (product_blocks (product_of user w))) [
  | inl closed ↦ rw (closed, check_gates) refl
  | inr opened ↦
      rw (opened, check_gates)
        (elim (Bool-cases (home_blocks (home_of user w))) [
          | inl shut ↦ rw (shut, check_gates) refl
          | inr wide ↦
              rw (wide, check_gates)
                (elim (Result-cases
                  (user_has_permission user act_as_permission (some user.tenant_id) w)) [
                    | inl (has_global, e) ↦
                        rw (e, resume)
                          (elim (Bool-cases (has_global || has_target_binding user c.id w)) [
                            | inl may ↦ rw may refl
                            | inr denied ↦ rw denied refl
                          ])
                    | inr (x, e) ↦ rw (e, resume) refl
                  ])
        ])
]

resolve_act_as-unchanged :
    (user : User) (slug : String) (w : World) → (resolve_act_as user slug w).1 ≡ w
unfolding resolve_act_as
resolve_act_as-unchanged user slug w =
    elim (Option-cases (find? (is_live_slug user.product_id slug) w.tenants)) [
      | inl gone ↦ rw (gone, resolve_act_as) refl
      | inr (t, found) ↦
          rw (found, resolve_act_as)
            (elim (Bool-cases (t.id == user.tenant_id)) [
              | inl home ↦ rw home refl
              | inr away ↦ rw away (elim (Bool-cases (holds t.parent_id user.tenant_id)) [
                | inl child ↦ rw child (check_gates-unchanged user t w)
                | inr stranger ↦ rw stranger refl
              ])
            ])
    ]

-- Where a request works: at home, or in a child that the user may enter.
abbrev pub Place : User → World → ℕ → Type 0
Place user w t = (t ≡ user.tenant_id) ⊎ ((c : Tenant) × MayEnter user w c × (c.id ≡ t))

pub enter_tenant-Place :
    (user : User) (possible : Bool) (slug : Option String) (w : World) (t : ℕ)
    → (enter_tenant user possible slug w).0 ≡ ok t
    → Place user w t
unfolding enter_tenant set_acting_from_tenant
enter_tenant-Place user possible slug w t = elim (Bool-cases (is_given slug && possible)) [
  | inr none_named ↦ rw (none_named, enter_tenant) (λ done. inl (sym (ok-injective done)))
  | inl named ↦
      rw (named, enter_tenant)
        (elim (Result-cases (resolve_act_as user (get_or slug "") w).0) [
          | inr (x, failed) ↦ rw (failed, resume) (λ done. absurd (err_ne_ok done))
          | inl (c, found) ↦
              rw (found, resume)
                (elim (Bool-cases (c.id == user.tenant_id)) [
                  | inl home ↦ rw home (λ done. inl (sym (ok-injective done)))
                  | inr away ↦
                      rw (away, set_acting_from_tenant)
                        (λ done.
                          place c (ok-injective done) away
                            (resolve_act_as-MayEnter user (get_or slug "") w c found))
                ])
        ])
]
  where
    place :
        (c : Tenant)
        → c.id ≡ t
        → (c.id == user.tenant_id) ≡ false
        → (c.id ≡ user.tenant_id) ⊎ MayEnter user w c
        → Place user w t
    place c same away (inl home) = inl (sym same ∙ home)
    place c same away (inr may) = inr (c, may, same)

abbrev pub with_acting : World → Option ℕ → World
with_acting w a = record w { ctx = record (w.ctx) { acting_from_tenant = a } }

pub enter_tenant-acting :
    (user : User) (possible : Bool) (slug : Option String) (w : World)
    → (a : Option ℕ) × ((enter_tenant user possible slug w).1 ≡ with_acting w a)
unfolding enter_tenant set_acting_from_tenant
enter_tenant-acting user possible slug w = elim (Bool-cases (is_given slug && possible)) [
  | inr none_named ↦ rw (none_named, enter_tenant) (w.ctx.acting_from_tenant, refl)
  | inl named ↦
      rw (named, enter_tenant)
        (elim (Result-cases (resolve_act_as user (get_or slug "") w).0) [
          | inr (x, failed) ↦
              rw (failed, resume)
                (w.ctx.acting_from_tenant, resolve_act_as-unchanged user (get_or slug "") w)
          | inl (c, found) ↦
              rw (found, resume)
                (elim (Bool-cases (c.id == user.tenant_id)) [
                  | inl home ↦
                      rw home
                        (w.ctx.acting_from_tenant, resolve_act_as-unchanged user (get_or slug "") w)
                  | inr away ↦
                      rw (away, set_acting_from_tenant)
                        (
                          some user.tenant_id,
                          ap (λ v. with_acting v (some user.tenant_id))
                              (resolve_act_as-unchanged user (get_or slug "") w),
                        )
                ])
        ])
]

abbrev pub in_product : World → ℕ → World
in_product w p = record w { ctx = record (w.ctx) { current_product = some p } }

pub Place-in_product :
    (user : User) (w : World) (p t : ℕ) → Place user (in_product w p) t → Place user w t
unfolding user_has_permission list_user_permission_codes binding_codes role_codes
Place-in_product user w p t h = h
