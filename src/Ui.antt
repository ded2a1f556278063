-- ===== src/Ui.antt =====
-- ui: the screen and the keyboard.
pub mod Curses
mod Tests
