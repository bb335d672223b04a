-- ===== src/Tests/Requests.antt =====
-- Requests that act in a tenant, and tenants that are made.
use plynth.Access.Offers.{Offers}
use plynth.Auth.{refresh}
use plynth.Users.Lockout.{Names, set_active-lockout}
use plynth.Context.{set_current_product, set_acting_from_tenant, set_current_tenant}
use plynth.Security.{decode_token}
use plynth.Rbac.{user_has_permission, list_user_permission_codes, any_matches}
use plynth.Access.Expiry.{Clear, Expired, enforce_tenant_expiry-Clear}
use plynth.Access.Offers.{Offers}
use plynth.Access.Current.Entry.{Admitted, get_current_user-Admitted}
use plynth.Access.Current.{Request, get_current_user, enter_as_user, enter_tenant}
use plynth.Tenant.{TenantData, create_tenant}
use plynth.Tenant.Children.{AccessibleChild, child_entry}
use plynth.Tenant.Slugs.{UniqueSlugs, create_tenant-UniqueSlugs}
use plynth.Access.{enforce_tenant_expiry, is_live_slug, resolve_act_as, check_gates, walk_parents}
use plynth.Samples.{user}
use plynth.Samples.People.{office, toy, home, kid}
use plynth.Models.Tenant.{TenantType}
use plynth.Users.{set_active}
use plynth.Prelude.{
  [], ◌∷◌, some, none, true, refl, List, ◌≡◌, subst, find?, ◌⊎◌, eq_iff, and_left, false, ◌≢◌,
}
use plynth.Exec.{ok, err, forbidden, unauthorized}

enforce_tenant_expiry-Clear_example :
    ((enforce_tenant_expiry 2 office ≡ some (ok tt)) × Clear office 2)
    ⊎ ((enforce_tenant_expiry 2 office ≡ some (err forbidden)) × Expired office 2)
enforce_tenant_expiry-Clear_example = enforce_tenant_expiry-Clear 2 office

office-UniqueSlugs : UniqueSlugs 9 office
office-UniqueSlugs slug = (
  λ h.
      subst (λ s. find? (is_live_slug 9 s) (home ∷ []) ≡ none)
        ((eq_iff "kid" slug).0 (and_left _ _ h)) refl,
  ((λ h. refl), tt),
)

abbrev rows : List AccessibleChild
rows = child_entry true none kid ∷ []

abbrev branch : TenantData
branch = record {
  name = "Branch";
  slug = "branch";
  parent_id = some 1;
  allow_child_access = none;
  actor_user_id = some 3;
  type = TenantType.company;
}

create_tenant-UniqueSlugs_example : UniqueSlugs 9 (create_tenant 9 branch office).1
create_tenant-UniqueSlugs_example = create_tenant-UniqueSlugs 9 9 branch office office-UniqueSlugs

abbrev visit : Request
visit = record {
  token = some "access";
  x_acting_tenant_slug = some "kid";
  x_platform_admin_token = none;
}

visit_works : (get_current_user toy "secret" (some 9) visit office).0 ≡ ok user
unfolding get_current_user enter_as_user decode_token set_current_product enter_tenant
    resolve_act_as check_gates user_has_permission list_user_permission_codes any_matches
    set_acting_from_tenant set_current_tenant enforce_tenant_expiry walk_parents
visit_works = refl

get_current_user-Admitted_example :
    Admitted (some 9) user office (get_current_user toy "secret" (some 9) visit office).1
get_current_user-Admitted_example =
    get_current_user-Admitted toy "secret" (some 9) visit user office refl visit_works

refresh_Names : Names toy "refresh" 3
refresh_Names time payload e = cc

access_Names : Names toy "access" 3
access_Names time payload e = cc

off_works : (set_active 3 false none office).0 ≡ ok (record user { is_active = false })
unfolding set_active
off_works = refl

set_active-lockout_example :
    ((refresh toy "refresh" (set_active 3 false none office).1).0 ≡ err unauthorized)
    × ((get_current_user toy "secret" (some 9) visit (set_active 3 false none office).1).0
        ≢ ok user)
set_active-lockout_example =
    set_active-lockout toy 3 none (record user { is_active = false }) office "refresh" "access"
      "secret" (some 9) visit user off_works refresh_Names access_Names refl refl
