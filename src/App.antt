-- ===== src/App.antt =====
-- The program around the library: its configuration (src/app/).
pub mod Config
mod Tests
