-- ===== src/Web.antt =====
-- The web dashboard (src/web/).
pub mod Connection
pub mod Request
pub mod Routes
pub mod Reading
pub mod Worker
mod Tests
