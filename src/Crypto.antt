-- ===== src/Crypto.antt =====
-- packages/crypto/src: the encodings, identifiers, tokens, address rules and canonical strings. Web
-- Crypto itself is a parameter where it is called.
pub mod Text
pub mod Encoding
pub mod Ulid
pub mod Token
pub mod Aad
pub mod Cidr
pub mod WebCrypto
pub mod Aesgcm
pub mod Hierarchy
pub mod Keys
pub mod Envelope
pub mod Resume
pub mod Tests
