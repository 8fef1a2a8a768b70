-- ===== src/Console.antt =====
-- The console: the text screen and the keyboard.
pub mod Screen
pub mod Keyboard
pub mod Cursor
pub mod Typing
pub mod Keys
pub mod PrintQ
