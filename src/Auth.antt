-- ===== src/Auth.antt =====
-- Who is signed in.
pub mod Sessions
