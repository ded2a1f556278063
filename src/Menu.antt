-- ===== src/Menu.antt =====
-- Gopher menus: the types of their lines, and what a key does on the screen of a menu.
pub mod Item
pub mod Keys
pub mod Explode
pub mod Frame
mod Tests
