-- ===== src/Auth.antt =====
-- meritmolt/auth and the two tables of meritmolt/database.py.
pub mod Tables
pub mod Session
pub mod Base64
pub mod RawToken
pub mod Tokens
pub mod Moltbook
pub mod Jwt
pub mod Router
