-- ===== src/Menu.antt =====
-- src/Menu: menus and their cursor.
pub mod MenuCursor
pub mod MenuStack
