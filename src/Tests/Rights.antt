-- ===== src/Tests/Rights.antt =====
-- Permissions and roles at concrete codes and bindings.
use plynth.Rbac.Matching.{matches-join}
use plynth.Rbac.Scopes.{includes, gives, assign_role-codes}
use plynth.World.{World}
use plynth.Rbac.{matches, list_user_permission_codes, assign_role}
use plynth.Samples.{user}
use plynth.Samples.People.{office}
use plynth.Prelude.{[], ◌∷◌, some, none, true, refl, ◌<>◌, ◌≡◌, str_eq, ◌||◌, ◌&&◌}
use plynth.Exec.{ok}

matches-join_example :
    matches ("jobs" <> (":" <> "*")) ("jobs" <> (":" <> "read"))
    ≡ ok ((str_eq "jobs" "*" || str_eq "jobs" "jobs") && (str_eq "*" "*" || str_eq "*" "read"))
matches-join_example = matches-join "jobs" "*" "jobs" "read" refl refl

-- A role that gives "jobs:read"
abbrev staffed : World
staffed = record office {
  roles =
      record { id = 5; product_id = 9; tenant_id = none; name = "member"; is_system = true } ∷ [];
  permissions = record { id = 8; code = "jobs:read" } ∷ [];
  role_permissions = record { role_id = 5; permission_id = 8 } ∷ [];
}

assign_role-codes_example :
    includes "jobs:read"
      (list_user_permission_codes user (some 1) (assign_role 3 5 9 (some 1) staffed).1)
    ≡ (gives 3 5 (some 1) user 1 staffed "jobs:read"
        || includes "jobs:read" (list_user_permission_codes user (some 1) staffed))
assign_role-codes_example = assign_role-codes 3 5 9 (some 1) user 1 staffed "jobs:read"
