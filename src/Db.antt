-- ===== src/Db.antt =====
-- The database connection of libraries/postrest/db.c: the interface of libpq and libevent that it
-- calls, and its operations, one child module each.
pub mod Libpq
pub mod Send
pub mod Response
