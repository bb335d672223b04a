-- ===== src/Lib.antt =====
-- Plynth is the back end of a product with many tenants: plans, subscriptions, credits,
-- invoices, stored documents and background jobs behind an HTTP interface. This library models
-- its services, the functions in app/services that change the database, and proves what makes
-- them correct.
--
-- The parts and how they interact. A service call gets a database session and changes rows in
-- it. The subscription service reads plans, asks the billing provider, writes the tenant's
-- subscription and has the credit service grant the plan's credits; the billing service turns
-- failed and successful payments into changes of the subscription; the access to components
-- follows the plan of the subscription; jobs and stored documents stand alone; nearly every
-- change calls `audit.record`. In front of the services, a request's headers and token decide
-- the product, the user and the tenant it works in, which the context variables then hold;
-- repositories filter by them, permissions come from roles that may be scoped to a tenant, and
-- a user of a parent tenant may act as one of its children.
--
-- The files.
--   Prelude     Boolean tests, tables as lists (Prelude/Tables), integers (Prelude/Int).
--   Models      the rows: app/models, one file for each; an enum is a data type with its
--   values. World       the state: the tables, the context variables of app/core/tenant.py,
--   the clock. Exec        a service call as a function from the state to a result or an
--   error, and a
--               state.
--   Context     the setters and the bypass blocks of app/core/tenant.py.
--   Repository  app/repositories/base.py, for any mapped class: a record of its table and its
--               columns; Repository/Isolation is on what a repository shows and stores.
--   Audit       `record` of app/services/audit.py; Audit/Scope is on whom a row names.
--   Credit      app/services/credit.py, each function by its name; `post` is the write of a
--               balance with its ledger entry, which `grant`, `consume` and `reset_period`
--               share. Credit/Stored has what the columns of app/models/credit.py keep, with
--               `session_scope` of app/core/database.py, and Credit/Session (with
--               Credit/Scaled) is on the ledger over many requests. Credit/Ledger,
--               Credit/Debit, Credit/Replay, Credit/Periods and Credit/Frame are on balances,
--               debits, repeated references, plans' credits, and what stays as it is.
--   Plan        app/services/plan.py: the catalogue.
--   Providers   app/providers/billing/base.py: the provider as a record of functions, of which
--               nothing is assumed.
--   Subscription  app/services/subscription.py; Subscription/Grace is on the sweep.
--   Billing     app/services/billing.py; Billing/Dunning is on failed payments,
--               Billing/Recovery on payments and access, Billing/Invoices on the records.
--   Job         app/services/job.py; Job/Lifecycle is on the states, Job/Race on concurrent
--               inserts, Job/Listing on what a tenant sees.
--   Storage     app/services/storage.py. The size of an encoded value (`json.dumps`) and SQL's
--               LIKE are parameters, of which nothing is assumed. Storage/Documents is on the
--               upsert, Storage/Writes on versions and reads after writes, Storage/Race on
--               concurrent writes, Storage/Collections and Storage/Reads on the rest.
--   Component   app/services/component.py: the overrides and, in Component/Catalogue, the rest
--               of the catalogue. Component/Access is the effective access, where the order of
--               texts is a parameter; Component/Agreement (with Component/Unique) and
--               Component/Overrides are on what it answers.
--   Rbac        app/services/rbac.py; Rbac/Templates has its tables of permissions and roles,
--               Rbac/Catalogue the seeding. Rbac/Matching and Rbac/Scopes are on wildcards and
--               on scoped bindings.
--   Security    app/core/security.py. PyJWT, argon2 and the random sources are a parameter,
--   the
--               record `Crypto`, of which only what a theorem names is assumed.
--   Access      app/core/dependencies.py: acting as a child and the expiry of tenants, and in
--               Access/Current the product and the user of a request. Access/Expiry,
--               Access/ActAs, Access/Offers, Access/Current/Place and Access/Current/Entry are
--               on what they let through.
--   Products    app/services/product.py; what Redis answers for a slug is a parameter.
--   Tenant      app/services/tenant.py, with the list of children in Tenant/Children;
--   Tenant/Slugs
--               is on slugs. The order of slugs is a parameter.
--   Auth        app/services/auth.py: sessions and passwords, and in Auth/Signup registration.
--   The
--               methods `lower`, `strip` and `title` of texts are parameters. Auth/Once (with
--               Auth/Replay), Auth/Reset and Auth/Relogin are on refresh tokens, reset tokens
--               and changed passwords.
--   Users       app/services/user.py; Users/Lockout is on deactivated users.
--   Webhooks    app/services/webhook_endpoint.py; Webhooks/Dispatch is on what is queued.
--   ServiceTokens  app/services/service_token.py; ServiceTokens/Liveness is on when a token
--   works. Vault       app/core/crypto.py and app/services/env_var.py. AES-GCM, the key
--   provider and the
--               UTF-8 codec are parameters, and bytes are numbers. Vault/Seal is on
--               encryption, Vault/Refines on the vault as a map.
--   Reminders   app/tasks/payment_reminders.py, with Redis' keys and the mails as a state of
--   their
--               own; Reminders/Once is on the days and on repeated runs.
--   Samples, Tests  small databases, and each theorem at one of them.
--
-- Choices of the model.
--   A table is a list of rows, the newest first, and `db.scalar(select ...)` is the first row
--   that answers. A changed object is written back to the row with its identifier. A session
--   sees its own writes, and rows that `db.add` adds are in the table at once. An error leaves
--   the rows as they were written so far: the rollback is the caller's (app/core/database.py).
--   Identifiers from `uuid4` are the values of a sequence in the order they are drawn; a
--   theorem that needs them distinct says so (`UuidUnique`). Times are seconds, and a call
--   reads the clock once. Credit amounts are integers in a unit that is as fine as the amounts
--   of the requests, which may be finer than the four digits of the columns. In a session an
--   amount is what the code computed; what the database keeps of it when the session commits
--   is a parameter `numeric`, of which `IsRounding` is assumed; an amount too large for the
--   column, which the database refuses, is left out. A JSON document is its text. The blocks
--   `bypass_product` and `bypass_tenant` around a plain select are left out: such a select
--   does not read the flags. `enqueue` and `create_collection` take the rows that other
--   transactions commit between their look and their insert as an argument. The unique index
--   then finds one of them, the session rolls back and looks again; the session is taken to
--   have written nothing before. `put_document` reads a row and then writes it by
--   `write_document`, with no lock: the whole call is one step in the theorems on writes one
--   after the other, and Storage/Race has what happens where another write comes between the
--   two. One loop needs fuel, the walk over a tenant's parents: one round more than there are
--   tenants is enough, since each round sees a tenant that was not seen before. The three
--   tries of an individual's registration are counted down; every other loop runs over a list.
--
-- Not modelled: messages and details of exceptions, the JSON `diff` and the request identifier
-- of an audit entry, log lines and their context variables, row locks, HTTP routes and
-- schemas, the login with Google, signatures, the previews of secrets, the payment providers'
-- drivers, and the clients in the other directories.
pub mod Prelude
pub mod Models
pub mod World
pub mod Exec
pub mod Context
pub mod Repository
pub mod Audit
pub mod Credit
pub mod Providers
pub mod Plan
pub mod Subscription
pub mod Billing
pub mod Job
pub mod Storage
pub mod Component
pub mod Rbac
pub mod Security
pub mod Access
pub mod Products
pub mod Tenant
pub mod Auth
pub mod Users
pub mod Webhooks
pub mod ServiceTokens
pub mod Vault
pub mod Reminders
pub mod Samples
pub mod Tests
