-- ===== src/Tools.antt =====
-- crates/tools and crates/terminal: the pages of a large output and the replay of a terminal.
pub mod Pages
pub mod Tail
