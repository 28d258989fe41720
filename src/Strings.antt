-- ===== src/Strings.antt =====
-- src/Core/Text/Strings.cpp: the text helpers that every other part calls.
pub mod Numbers
pub mod Chars
pub mod Parts
pub mod Markup
pub mod Cut
pub mod Duration
