-- ===== src/Tui.antt =====
-- src/tui: the input line, the scrollback windows, their manager and commands.
pub mod InputLine
pub mod Window
pub mod Signal
pub mod WindowManager
pub mod Command
mod Tests
