-- ===== src/External.antt =====
-- What the store takes from other crates: ordered tables (redb), encoded records (bincode) and the
-- authenticated cipher (chacha20poly1305). Each is an interface of operations and documented laws.
pub mod Keys
pub mod Tables
pub mod Counting
pub mod Codecs
pub mod Ciphers
