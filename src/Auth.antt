-- ===== src/Auth.antt =====
-- internal/auth: one-time codes. Passwords and tokens belong to bcrypt and the JWT package.
pub mod Totp
pub mod Secrets
