-- ===== src/Utils.antt =====
-- The request helpers of libraries/postrest/utils.c, one child module for each group.
pub mod Validate
pub mod UrlDecode
pub mod Text
pub mod Headers
pub mod Atoi
