-- ===== src/Tests.antt =====
-- The theorems of the development at concrete states.
mod Wallets
mod Payments
mod Queue
mod Documents
mod Components
mod Entries
mod Rows
mod Rights
mod Requests
mod Sessions
mod Hooks
mod Secrets
mod Mails
