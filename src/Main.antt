-- ===== src/Main.antt =====
-- api/cmd/kamado-api/main.go: what the program entry gives to the parts, and the order in which it
-- starts them.
pub mod Cursor
pub mod Kill
pub mod Start
