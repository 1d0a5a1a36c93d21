-- ===== src/Sda.antt =====
-- libraries/postrest/sda.c, a self-decrypting archive: words, growing arrays and buffers, base64,
-- the packing of 7-bit characters, MD5 and the generator of its key stream.
mod Bits
pub mod Words
pub mod Arrays
pub mod Base64
pub mod Packing
pub mod Md5
pub mod Archive
