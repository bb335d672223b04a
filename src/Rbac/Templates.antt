-- ===== src/Rbac/Templates.antt =====
-- The permissions and the role templates that the program ships (app/services/rbac.py).
-- The codes of `SYSTEM_PERMISSIONS`, without their descriptions
use plynth.Prelude.{[], ◌∷◌, List, String, if◌then◌else◌, str_eq}

abbrev pub system_permissions : List String
system_permissions =
    "*:*" ∷ "tenants:read" ∷ "tenants:write" ∷ "tenants:delete" ∷ "tenants:act_as_child"
    ∷ "users:read" ∷ "users:write" ∷ "users:delete" ∷ "users:activate" ∷ "roles:read"
    ∷ "roles:write" ∷ "plans:read" ∷ "plans:write" ∷ "subscriptions:read" ∷ "subscriptions:purchase"
    ∷ "subscriptions:change" ∷ "subscriptions:cancel" ∷ "credits:read" ∷ "credits:consume"
    ∷ "credits:grant" ∷ "audit:read" ∷ "jobs:read" ∷ "jobs:write" ∷ "jobs:cancel" ∷ "storage:read"
    ∷ "storage:write" ∷ "storage:delete" ∷ "components:read" ∷ "components:override"
    ∷ "client:create" ∷ "client:read" ∷ "client:update" ∷ "session:create" ∷ "session:read"
    ∷ "session:update" ∷ "note:create" ∷ "note:read" ∷ "note:sign" ∷ "availability:read"
    ∷ "availability:manage" ∷ "booking:create" ∷ "booking:read" ∷ "booking:manage" ∷ "inbox:read"
    ∷ "inbox:send" ∷ "approval:decide" ∷ "payment:read" ∷ "payment:manage" ∷ "digest:read"
    ∷ "gdpr:export" ∷ "gdpr:erase" ∷ "settings:manage" ∷ []

abbrev owner_permissions : List String
owner_permissions = "*:*" ∷ []

abbrev admin_permissions : List String
admin_permissions =
    "tenants:read" ∷ "tenants:write" ∷ "tenants:act_as_child" ∷ "users:read" ∷ "users:write"
    ∷ "users:activate" ∷ "roles:read" ∷ "roles:write" ∷ "subscriptions:read"
    ∷ "subscriptions:purchase" ∷ "subscriptions:change" ∷ "subscriptions:cancel" ∷ "credits:read"
    ∷ "credits:grant" ∷ "audit:read" ∷ "jobs:read" ∷ "jobs:write" ∷ "jobs:cancel" ∷ "storage:read"
    ∷ "storage:write" ∷ "storage:delete" ∷ "components:read" ∷ "components:override" ∷ []

abbrev member_permissions : List String
member_permissions =
    "tenants:read" ∷ "users:read" ∷ "subscriptions:read" ∷ "credits:read" ∷ "credits:consume"
    ∷ "jobs:read" ∷ "storage:read" ∷ "components:read" ∷ []

abbrev pub system_roles : List (String × List String)
system_roles =
    ("owner", owner_permissions)
    ∷ ("admin", admin_permissions)
    ∷ ("member", member_permissions)
    ∷ []

abbrev practitioner_permissions : List String
practitioner_permissions =
    "client:create" ∷ "client:read" ∷ "client:update" ∷ "session:create" ∷ "session:read"
    ∷ "session:update" ∷ "note:create" ∷ "note:read" ∷ "note:sign" ∷ "availability:read"
    ∷ "availability:manage" ∷ "booking:create" ∷ "booking:read" ∷ "booking:manage" ∷ "inbox:read"
    ∷ "inbox:send" ∷ "approval:decide" ∷ "payment:read" ∷ "payment:manage" ∷ "digest:read"
    ∷ "gdpr:export" ∷ "gdpr:erase" ∷ "audit:read" ∷ []

abbrev assistant_permissions : List String
assistant_permissions =
    "client:read" ∷ "booking:create" ∷ "booking:read" ∷ "booking:manage" ∷ "inbox:read" ∷ []

-- `PRODUCT_SYSTEM_ROLES.get(slug or "", {})`
abbrev pub product_system_roles : String → List (String × List String)
product_system_roles slug =
    if str_eq slug "mayva"
    then ("practitioner", practitioner_permissions) ∷ ("assistant", assistant_permissions) ∷ []
    else []
