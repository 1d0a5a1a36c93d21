-- ===== src/Csp.antt =====
-- The servlets of csp/*.c: what their endpoints have in common, and one child for each servlet.
pub mod Action
pub mod Table
pub mod Document
pub mod Collection
pub mod Index
pub mod Graph
pub mod Database
pub mod Query
pub mod Servlets
pub mod Session
pub mod Hawk
