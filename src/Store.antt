-- ===== src/Store.antt =====
-- src/runtime/store: the maps that hold pending requests and join groups.
pub mod Rotating
pub mod Join
