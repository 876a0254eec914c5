-- ===== src/User.antt =====
-- The programs of the user directory.
pub mod Grep
pub mod Ulib
pub mod Printf
