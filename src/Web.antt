-- ===== src/Web.antt =====
-- internal/web: the sign-in, the sessions, the pages, and the setup wizard.
pub mod Sessions
pub mod Pages
pub mod SignIn
pub mod Setup
pub mod Door
pub mod Examples
