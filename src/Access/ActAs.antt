-- ===== src/Access/ActAs.antt =====
-- The picker of child tenants (app/services/tenant.py) against the check that a request meets
-- (app/core/dependencies.py).
use plynth.Tenant.Slugs.{UniqueSlugs, NoSelfParent}
use plynth.Rbac.{user_has_permission}
use plynth.Access.{
  is_live_slug, resolve_act_as, check_gates, act_as_permission, has_target_binding, product_blocks,
  product_of, home_blocks, home_of,
}
use plynth.Models.Role.{UserRole}
use plynth.Component.Unique.{AtMostOne}
use plynth.Tenant.Children.{
  AccessibleChild, not_none, global_block, is_child_of, annotate, has_global_perm,
  target_scoped_ids, child_entry, children_of, list_accessible_children,
}
use plynth.Models.Tenant.{User, Tenant}
use plynth.World.{World}
use plynth.Prelude.{
  [], ◌∷◌, some, none, true, false, inl, inr, refl, ℕ, Bool, String, All, List, holds, ◌≡◌, find?,
  any, ◌≢◌, ◌==◌, Bool-cases, All-map, map, select, ◌&&◌, is_some, Option-cases, ap, Option, ◌||◌,
  if◌then◌else◌, arith, true_ne_false, sym, ◌∙◌, ==_true, subst, eq_refl, All-sort_by, All-zip,
  All-select, All-select_kept,
}
use plynth.Exec.{ok, err, Result, forbidden, Result-cases, resume, ok-injective, err_ne_ok}

abbrev pub Agrees : User → World → AccessibleChild → Type 0
Agrees user w row =
    (t : Tenant) × (t.id ≡ row.id)
    × ((resolve_act_as user row.slug w).0 ≡ (if row.can_act_as then ok t else err forbidden))

find?-unique {ℓ κ} :
    {S : Type κ} {A : Type ℓ} (p : S → A → Bool) (xs : List A)
    → ((s : S) → AtMostOne (p s) xs)
    → All (λ x. (s : S) → p s x ≡ true → find? (p s) xs ≡ some x) xs
find?-unique p [] one = tt
find?-unique p (x ∷ xs) one =
    (λ s here. rw here refl, All-map _ _ xs later (find?-unique p xs (λ s. (one s).1)))
  where
    later :
        (y : _)
        → ((s : _) → p s y ≡ true → find? (p s) xs ≡ some y)
        → (s : _) → p s y ≡ true
        → find? (p s) (x ∷ xs) ≡ some y
    later y found s e = elim (Bool-cases (p s x)) [
      | inl front ↦ absurd (clash (found s e) ((one s).0 front))
      | inr other ↦ rw other (found s e)
    ]
      where
        clash : find? (p s) xs ≡ some y → find? (p s) xs ≢ none
        clash h k = cc

-- The identifiers of the scoped bindings are those that the check looks for.
any-scopes :
    (i : ℕ) (user_id : ℕ) (bs : List UserRole)
    → any
        (λ j. j == i)
        (not_none (
          map
            (λ b. b.scope_tenant_id)
            (select (λ b. (b.user_id == user_id) && is_some b.scope_tenant_id) bs)))
      ≡ any (λ b. (b.user_id == user_id) && holds b.scope_tenant_id i) bs
any-scopes i u [] = refl
any-scopes i u (b ∷ bs) = elim (Bool-cases (b.user_id == u)) [
  | inl mine ↦ rw mine (elim (Option-cases b.scope_tenant_id) [
    | inl unscoped ↦ rw unscoped (any-scopes i u bs)
    | inr (j, e) ↦ rw e (ap (λ r. (j == i) || r) (any-scopes i u bs))
  ])
  | inr other ↦ rw other (any-scopes i u bs)
]

abbrev verdict : Bool → Tenant → Result Tenant
verdict true t = ok t
verdict false t = err forbidden

-- What the gates answer, by the block, the permission and the binding.
abbrev pub gates : Option String → Result Bool → Bool → Tenant → Result Tenant
gates (some why) perm bound c = err forbidden
gates none (err e) bound c = err e
gates none (ok has_global) bound c = if has_global || bound then ok c else err forbidden

pub check_gates-gates :
    (user : User) (c : Tenant) (w : World)
    → (check_gates user c w).0
      ≡ gates
          (global_block user w)
          (user_has_permission user act_as_permission (some user.tenant_id) w)
          (has_target_binding user c.id w)
          c
unfolding check_gates global_block
check_gates-gates user c w = elim (Bool-cases (product_blocks (product_of user w))) [
  | inl closed ↦ rw (closed, check_gates, global_block) refl
  | inr opened ↦
      rw (opened, check_gates, global_block)
        (elim (Bool-cases (home_blocks (home_of user w))) [
          | inl shut ↦ rw (shut, check_gates, global_block) refl
          | inr wide ↦
              rw (wide, check_gates, global_block)
                (elim (Result-cases
                  (user_has_permission user act_as_permission (some user.tenant_id) w)) [
                    | inl (has_global, e) ↦
                        rw (e, resume)
                          (elim (Bool-cases (has_global || has_target_binding user c.id w)) [
                            | inl may ↦ rw may refl
                            | inr no_way ↦ rw no_way refl
                          ])
                    | inr (x, e) ↦ rw (e, resume) refl
                  ])
        ])
]

-- A child of the home tenant, as the query returns it.
abbrev pub Child : User → World → Tenant → Type 0
Child user w c =
    (is_child_of user c ≡ true)
    × (holds c.parent_id c.id ≡ false)
    × (find? (is_live_slug user.product_id c.slug) w.tenants ≡ some c)

-- A child is not the home tenant.
pub Child-not_home :
    (user : User) (w : World) (c : Tenant) → Child user w c → (c.id == user.tenant_id) ≡ false
Child-not_home user w c (child, apart, found) = elim (Bool-cases (c.id == user.tenant_id)) [
  | inl same ↦ absurd (
      true_ne_false
        (sym parent ∙ (ap (holds c.parent_id) (sym (==_true c.id user.tenant_id same)) ∙ apart)))
  | inr other ↦ other
]
  where
    parent : holds c.parent_id user.tenant_id ≡ true
    parent = ground (arith, child)

resolve_act_as-gates :
    (user : User) (w : World) (c : Tenant)
    → Child user w c
    → (resolve_act_as user c.slug w).0
      ≡ gates
          (global_block user w)
          (user_has_permission user act_as_permission (some user.tenant_id) w)
          (has_target_binding user c.id w)
          c
unfolding resolve_act_as
resolve_act_as-gates user w c (child, apart, found) =
    rw (found, resolve_act_as)
      (rw (Child-not_home user w c (child, apart, found), parent) (check_gates-gates user c w))
  where
    parent : holds c.parent_id user.tenant_id ≡ true
    parent = ground (arith, child)

entry-Agrees :
    (user : User) (w : World) (c : Tenant) (can : Bool) (reason : Option String)
    → (resolve_act_as user c.slug w).0 ≡ (if can then ok c else err forbidden)
    → Agrees user w (child_entry can reason c)
entry-Agrees user w c can reason e = (c, refl, e)

-- An entry once no gate that is the same for all children is closed
open-Agrees :
    (user : User) (w : World) (c : Tenant) (has_global : Bool) (ids : List ℕ)
    → (resolve_act_as user c.slug w).0
      ≡ gates none (ok has_global) (has_target_binding user c.id w) c
    → (has_global ≡ false → any (λ i. i == c.id) ids ≡ has_target_binding user c.id w)
    → Agrees user w (annotate none has_global ids c)
unfolding annotate
open-Agrees user w c true ids e scopes = entry-Agrees user w c true none e
open-Agrees user w c false ids e scopes =
    rw (scopes refl) (elim (Bool-cases (has_target_binding user c.id w)) [
      | inl bound ↦ rw bound (entry-Agrees user w c true none (e ∙ rw bound refl))
      | inr unbound ↦ rw unbound (
          entry-Agrees user w c false
            (some "need tenants:act_as_child permission or a scoped binding") (e ∙ rw unbound refl))
    ])

scopes-binding :
    (user : User) (w : World) (c : Tenant)
    → global_block user w ≡ none
    → any (λ i. i == c.id) (target_scoped_ids user false w) ≡ has_target_binding user c.id w
scopes-binding user w c free = rw free (any-scopes c.id user.id w.user_roles)

pub annotate-Agrees :
    (user : User) (w : World) (c : Tenant) (has_global : Bool)
    → Child user w c
    → has_global_perm user w ≡ ok has_global
    → Agrees user w
        (annotate (global_block user w) has_global (target_scoped_ids user has_global w) c)
unfolding annotate
annotate-Agrees user w c has_global child perm =
    let ids = target_scoped_ids user has_global w in
    let answer = resolve_act_as-gates user w c child in
    let bound = has_target_binding user c.id w in
    elim (Option-cases (global_block user w)) [
      | inl free ↦
          subst (λ o. Agrees user w (annotate o has_global ids c)) (sym free)
            (open-Agrees user w c has_global ids
              (answer ∙ (λ i. gates (free i) (allowed free i) bound c))
              (λ h.
                (ap (λ b. any (λ i. i == c.id) (target_scoped_ids user b w)) h
                  ∙ scopes-binding user w c free)))
      | inr (why, shut) ↦
          subst (λ o. Agrees user w (annotate o has_global ids c)) (sym shut)
            (entry-Agrees user w c false (some why) (
              answer
              ∙ ap
                  (λ o.
                    gates o (user_has_permission user act_as_permission (some user.tenant_id) w)
                      bound c)
                  shut))
    ]
  where
    allowed :
        global_block user w ≡ none
        → user_has_permission user act_as_permission (some user.tenant_id) w ≡ ok has_global
    allowed free = sym (rw free refl) ∙ perm

children-Child :
    (user : User) (w : World) (slug_before : String → String → Bool)
    → UniqueSlugs user.product_id w
    → NoSelfParent w
    → All (Child user w) (children_of slug_before user w)
children-Child user w before unique apart =
    All-sort_by _ (Child user w) (select (is_child_of user) w.tenants) (
      All-map Row (Child user w) (select (is_child_of user) w.tenants) whole (
        All-zip (λ c. is_child_of user c ≡ true) Facts _ (All-select (is_child_of user) w.tenants)
          (All-select_kept Facts (is_child_of user) w.tenants (
            All-zip (λ c. holds c.parent_id c.id ≡ false) Found w.tenants apart
              (find?-unique (is_live_slug user.product_id) w.tenants unique)))))
  where
    Found : Tenant → Type 0
    Found c =
        (s : String)
        → is_live_slug user.product_id s c ≡ true
        → find? (is_live_slug user.product_id s) w.tenants ≡ some c

    Facts : Tenant → Type 0
    Facts c = (holds c.parent_id c.id ≡ false) × Found c

    Row : Tenant → Type 0
    Row c = (is_child_of user c ≡ true) × Facts c

    whole : (c : Tenant) → Row c → Child user w c
    whole c (child, (alone, found)) = (child, alone, found c.slug live)
      where
        live : is_live_slug user.product_id c.slug c ≡ true
        live = rw (eq_refl c.slug) (ground (arith, child))

-- What each row of the list says is so.
pub list_accessible_children-Agrees :
    (user : User) (slug_before : String → String → Bool) (w : World) (rows : List AccessibleChild)
    → UniqueSlugs user.product_id w
    → NoSelfParent w
    → list_accessible_children slug_before user w ≡ ok rows
    → All (Agrees user w) rows
unfolding list_accessible_children
list_accessible_children-Agrees user before w rows unique apart =
    elim (Result-cases (has_global_perm user w)) [
      | inl (has_global, e) ↦
          rw (e, list_accessible_children)
            (λ done. subst (All (Agrees user w)) (ok-injective done) (
              All-annotate has_global e (children_of before user w)
                (children-Child user w before unique apart)))
      | inr (x, e) ↦ rw (e, list_accessible_children) (λ done. absurd (err_ne_ok done))
    ]
  where
    All-annotate :
        (has_global : Bool)
        → has_global_perm user w ≡ ok has_global
        → (cs : List Tenant) → All (Child user w) cs
        → All (Agrees user w) (
            map
              (annotate (global_block user w) has_global (target_scoped_ids user has_global w))
              cs)
    All-annotate has_global e [] h = tt
    All-annotate has_global e (c ∷ cs) h =
        (annotate-Agrees user w c has_global h.0 e, All-annotate has_global e cs h.1)
