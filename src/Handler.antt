-- ===== src/Handler.antt =====
-- internal/handler and internal/api: what each route answers, to whom, and what it writes.
pub mod Reply
pub mod Middleware
pub mod Scope
pub mod Projection
pub mod Reports
pub mod Moderation
pub mod Forms
pub mod Withdrawal
pub mod Photo
pub mod Listing
pub mod Export
pub mod Stats
pub mod Profile
pub mod Mfa
pub mod Privacy
pub mod Authority
