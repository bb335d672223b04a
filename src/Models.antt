-- ===== src/Models.antt =====
-- The rows of the database (app/models): a record for each table, with the columns that the
-- services read or write, and a data type for each enum.
--
-- Identifiers (UUIDs) are numbers, of which the code uses only equality; times are seconds; money
-- (`Numeric(18, 4)`) is an integer in a fine unit (Credit/Stored); a JSON value is the text that
-- `json.dumps` gives for it.
pub mod Credit
pub mod Plan
pub mod Subscription
pub mod Job
pub mod Storage
pub mod Component
pub mod Tenant
pub mod Role
pub mod Audit
pub mod Session
pub mod Webhook
pub mod ServiceToken
pub mod EnvVar
