-- ===== src/Users.antt =====
-- TinyCTX/users: the user record and its capabilities, the migration of old rows, and the store.
pub mod Models
pub mod Migration
pub mod Store
