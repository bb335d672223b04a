-- ===== src/Rbac/Scopes.antt =====
-- Where a role holds (app/services/rbac.py): what an added binding gives to a user who acts in a
-- tenant.
use plynth.World.{World}
use plynth.Models.Tenant.{User}
use plynth.Models.Role.{RolePermission, Permission}
use plynth.Rbac.{list_user_permission_codes, assign_role, binding_codes, role_codes, flat}
use plynth.Prelude.{
  [], ◌∷◌, some, true, false, inl, inr, ℕ, Option, List, ◌≡◌, String, if◌then◌else◌, Bool-cases,
  ◌==◌, ◌&&◌, is_none, ◌||◌, holds, refl, any, Bool, select, map, str_eq, ◌∙◌, ap, any-append,
  any-map, any-select, any_same,
}

-- The set of the codes, as a test
abbrev pub includes : String → List String → Bool
includes code codes = any (λ c. str_eq c code) codes

any-flat {ℓ κ} :
    {A : Type ℓ} {B : Type κ} (p : B → Bool) (f : A → List B) (xs : List A)
    → any p (flat f xs) ≡ any (λ x. any p (f x)) xs
any-flat p f [] = refl
any-flat p f (x ∷ xs) =
    any-append p (f x) (flat f xs) ∙ ap (λ b. any p (f x) || b) (any-flat p f xs)

-- The role has a permission with this code.
abbrev pub role_gives : World → ℕ → String → Bool
role_gives w role_id code =
    any
      (λ rp.
        (rp.role_id == role_id)
        && any (λ p. (p.id == rp.permission_id) && str_eq p.code code) w.permissions)
      w.role_permissions

role_codes-role_gives :
    (w : World) (role_id : ℕ) (code : String)
    → includes code (role_codes w role_id) ≡ role_gives w role_id code
unfolding role_codes
role_codes-role_gives w role_id code =
    any-flat (λ c. str_eq c code) codes_of (select (λ rp. rp.role_id == role_id) w.role_permissions)
    ∙ (any-select (λ rp. includes code (codes_of rp)) (λ rp. rp.role_id == role_id)
          w.role_permissions
        ∙ any_same (λ rp. (rp.role_id == role_id) && includes code (codes_of rp))
            (λ rp.
              (rp.role_id == role_id)
              && any (λ p. (p.id == rp.permission_id) && str_eq p.code code) w.permissions)
            w.role_permissions (λ rp. ap (λ b. (rp.role_id == role_id) && b) (one rp)))
  where
    codes_of : RolePermission → List String
    codes_of rp = map (λ p. p.code) (select (λ p. p.id == rp.permission_id) w.permissions)

    one :
        (rp : RolePermission)
        → includes code (codes_of rp)
          ≡ any (λ p. (p.id == rp.permission_id) && str_eq p.code code) w.permissions
    one rp =
        any-map (λ c. str_eq c code) (λ (p : Permission). p.code)
          (select (λ p. p.id == rp.permission_id) w.permissions)
        ∙ any-select (λ (p : Permission). str_eq p.code code) (λ p. p.id == rp.permission_id)
            w.permissions

-- What a binding gives to a user who acts in a tenant: it is the user's, its scope is none or that
-- tenant, and its role is there and has a permission with the code.
abbrev pub gives : ℕ → ℕ → Option ℕ → User → ℕ → World → String → Bool
gives user_id role_id scope user tenant w code =
    ((user_id == user.id) && (is_none scope || holds scope tenant))
    && (any (λ r. r.id == role_id) w.roles && role_gives w role_id code)

if_includes :
    (b : Bool) (codes : List String) (code : String)
    → includes code (if b then codes else []) ≡ (b && includes code codes)
if_includes true codes code = refl
if_includes false codes code = refl

-- After a role is assigned, with the scope of a tenant or with none, a user who acts in a tenant
-- has a permission code exactly if the user had it there before, or is the one whom it was assigned
-- to, the scope is none or this tenant, the role exists, and the role has a permission with this
-- code.
pub assign_role-codes :
    (user_id role_id product_id : ℕ) (scope : Option ℕ) (user : User) (tenant : ℕ) (w : World)
    (code : String)
    → includes code (
        list_user_permission_codes user
          (some tenant)
          (assign_role user_id role_id product_id scope w).1)
      ≡ (gives user_id role_id scope user tenant w code
          || includes code (list_user_permission_codes user (some tenant) w))
unfolding list_user_permission_codes assign_role binding_codes role_codes
assign_role-codes user_id role_id product_id scope user tenant w code =
    elim (Bool-cases ((user_id == user.id) && (is_none scope || holds scope tenant))) [
      | inl here ↦ rw here (
          any-append (λ c. str_eq c code) _ _
          ∙ ap (λ b. b || includes code (list_user_permission_codes user (some tenant) w))
              (if_includes (any (λ r. r.id == role_id) w.roles) (role_codes w role_id) code
                ∙ ap (λ b. any (λ r. r.id == role_id) w.roles && b)
                    (role_codes-role_gives w role_id code)))
      | inr other ↦ rw other refl
    ]
