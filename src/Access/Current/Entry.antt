-- ===== src/Access/Current/Entry.antt =====
-- app/core/dependencies.py: what holds of a request that `get_current_user` lets in.
use plynth.Access.Current.Place.{
  Place, enter_tenant-acting, in_product, with_acting, Place-in_product, enter_tenant-Place,
}
use plynth.Security.{Crypto, decode_token}
use plynth.Access.Expiry.{Clear, enforce_tenant_expiry-Clear}
use plynth.Context.{set_current_tenant, set_current_product}
use plynth.Access.Current.{
  enter_tenant, expiry_result, Request, unauthorized, get_current_user, enter_as_user,
  is_admin_token,
}
use plynth.World.{World}
use plynth.Access.{enforce_tenant_expiry, forbidden}
use plynth.Models.Tenant.{User}
use plynth.Prelude.{
  some, none, true, false, inl, inr, refl, Option, String, ◌≡◌, ◌⊎◌, find?, ◌==◌, ap, holds, sym,
  ◌∙◌, ==_true, ℕ, subst, arith, is_given, ◌&&◌, get_or, is_some, not,
}
use plynth.Exec.{
  ok, ok-injective, err_ne_ok, Result-cases, resume, Action, ◌>>=◌, ◌>>◌, gets, lift, pure,
  raise_if, or_raise, raise_if-ok, or_raise-ok,
}

expiry_result-Clear :
    (t : ℕ) (w : World) → expiry_result (enforce_tenant_expiry t w) ≡ ok tt → Clear w t
expiry_result-Clear t w e = elim (enforce_tenant_expiry-Clear t w) [
  | inl (_, clear) ↦ clear
  | inr (late, _) ↦ absurd (err_ne_ok (sym (ap expiry_result late) ∙ e))
]

-- What holds of the user and of the state after a request with a token is let in.
abbrev pub Admitted : Option ℕ → User → World → World → Type 0
Admitted header_pid user w w' =
    ((i : ℕ) × (find? (λ u. u.id == i) w.users ≡ some user))
    × (user.is_active ≡ true)
    × ((header_pid ≡ none) ⊎ (header_pid ≡ some user.product_id))
    × (w'.ctx.current_product ≡ some user.product_id)
    × ((t : ℕ) × (w'.ctx.current_tenant ≡ some t) × Place user w t × Clear w' t)

-- The last steps: the tenant is chosen, set and checked.
abbrev settle : User → ℕ → Action User
settle user t = do verdict ← gets (enforce_tenant_expiry t); lift (expiry_result verdict); pure user

abbrev finish : Request → User → Action User
finish req user = do
  effective_tenant_id ← enter_tenant user true req.x_acting_tenant_slug
  set_current_tenant (some effective_tenant_id)
  settle user effective_tenant_id

settle-Clear :
    (user out : User) (t : ℕ) (v : World)
    → (settle user t v).0 ≡ ok out
    → (user ≡ out) × Clear v t × ((settle user t v).1 ≡ v)
settle-Clear user out t v = elim (Result-cases (expiry_result (enforce_tenant_expiry t v))) [
  | inl (_, calm) ↦
      rw (calm, resume) (λ done. (ok-injective done, expiry_result-Clear t v calm, refl))
  | inr (x, late) ↦ rw (late, resume) (λ done. absurd (err_ne_ok done))
]

abbrev Finished : User → User → World → World → Type 0
Finished user out w w' =
    (user ≡ out)
    × (w'.ctx.current_product ≡ w.ctx.current_product)
    × ((t : ℕ) × (w'.ctx.current_tenant ≡ some t) × Place user w t × Clear w' t)

abbrev in_tenant : World → ℕ → World
in_tenant w t = record w { ctx = record (w.ctx) { current_tenant = some t } }

finish-Finished :
    (req : Request) (user out : User) (w : World)
    → (finish req user w).0 ≡ ok out
    → Finished user out w (finish req user w).1
unfolding set_current_tenant
finish-Finished req user out w =
    let m = enter_tenant user true req.x_acting_tenant_slug in
    elim (Result-cases (m w).0) [
      | inr (x, failed) ↦ rw (failed, resume) (λ done. absurd (err_ne_ok done))
      | inl (t, placed) ↦
          let (a, acting) = enter_tenant-acting user true req.x_acting_tenant_slug w in
          rw (placed, resume)
            (rw acting (λ done.
              let (same, clear, still) =
                settle-Clear user out t (in_tenant (with_acting w a) t) done in
              subst (Finished user out w) (sym still) (
                same,
                refl,
                (t, refl, enter_tenant-Place user true req.x_acting_tenant_slug w t placed, clear),
              )))
    ]

header_ok :
    (header_pid : Option ℕ) (p : ℕ)
    → (is_some header_pid && not (holds header_pid p)) ≡ false
    → (header_pid ≡ none) ⊎ (header_pid ≡ some p)
header_ok none p e = inl refl
header_ok (some h) p e = inr (ap some (==_true h p (ground (arith, e))))

Finished-Admitted :
    (header_pid : Option ℕ) (sub p : ℕ) (u user : User) (w w' : World)
    → find? (λ u. u.id == sub) w.users ≡ some u
    → (header_pid ≡ none) ⊎ (header_pid ≡ some p)
    → u.is_active ≡ true
    → u.product_id ≡ p
    → Finished u user (in_product w p) w'
    → Admitted header_pid user w w'
Finished-Admitted header_pid sub p u user w w' found header active own
      (same, product, (t, tenant, place, clear)) =
    subst (λ v. Admitted header_pid v w w') same
      (
        (sub, found),
        active,
        subst (λ q. (header_pid ≡ none) ⊎ (header_pid ≡ some q)) (sym own) header,
        product ∙ ap some (sym own),
        (t, tenant, Place-in_product u w p t place, clear),
      )

module _ (crypto : Crypto) (platform_admin_token : String) where
  -- The steps once the claims of the token are known
  abbrev enter_with : Option ℕ → Request → ℕ → ℕ → Action User
  enter_with header_pid req sub token_pid = do
    raise_if (is_some header_pid && not (holds header_pid token_pid)) forbidden
    found ← gets (λ w. find? (λ u. u.id == sub) w.users)
    user ← or_raise found unauthorized
    raise_if (not user.is_active) unauthorized
    raise_if (not (user.product_id == token_pid)) forbidden
    set_current_product (some token_pid)
    finish req user

  enter_with-Admitted :
      (header_pid : Option ℕ) (req : Request) (sub token_pid : ℕ) (user : User) (w : World)
      → (enter_with header_pid req sub token_pid w).0 ≡ ok user
      → Admitted header_pid user w (enter_with header_pid req sub token_pid w).1
  unfolding set_current_product
  enter_with-Admitted header_pid req sub p user w done =
      let (agreed, d1, e1) =
        raise_if-ok (is_some header_pid && not (holds header_pid p)) forbidden _ w done in
      let (u, found, d2, e2) = or_raise-ok (find? (λ u. u.id == sub) w.users) unauthorized _ w d1 in
      let (live, d3, e3) = raise_if-ok (not u.is_active) unauthorized _ w d2 in
      let (own, d4, e4) = raise_if-ok (not (u.product_id == p)) forbidden _ w d3 in
      subst (Admitted header_pid user w) (ap (λ x. x.1) (sym (e1 ∙ (e2 ∙ (e3 ∙ e4))))) (
        Finished-Admitted header_pid sub p u user w _ found (header_ok header_pid p agreed)
          (ground (arith, live)) (==_true u.product_id p (ground (arith, own)))
          (finish-Finished req u user (in_product w p) d4))

  -- What holds of a request that `get_current_user` lets in with a token, where it has not the token
  -- of the platform admin: the user is a row of the table and active, the product header, if there
  -- is one, names the user's product, the request works in that product, and in the user's home
  -- tenant or in a live child of it that the product, the home tenant and the user's roles let the
  -- user enter, and no tenant that the parents of the tenant lead to has expired.
  pub get_current_user-Admitted :
      (header_pid : Option ℕ) (req : Request) (user : User) (w : World)
      → is_admin_token platform_admin_token req.x_platform_admin_token ≡ false
      → (get_current_user crypto platform_admin_token header_pid req w).0 ≡ ok user
      → Admitted header_pid user w (get_current_user crypto platform_admin_token header_pid req w).1
  unfolding get_current_user enter_as_user
  get_current_user-Admitted header_pid req user w plain =
      rw (plain, get_current_user)
        (λ done.
          let (given, d1, e1) = raise_if-ok (not (is_given req.token)) unauthorized _ w done in
          let (payload, decoded, d2, e2) =
            or_raise-ok (decode_token crypto (get_or req.token "") "access" w) unauthorized _ w
              d1 in
          let (token_pid, claimed, d3, e3) = or_raise-ok payload.pid unauthorized _ w d2 in
          subst (Admitted header_pid user w) (ap (λ x. x.1) (sym (e1 ∙ (e2 ∙ e3))))
            (enter_with-Admitted header_pid req payload.sub token_pid user w d3))
