-- ===== src/Crypto.antt =====
-- internal/crypto/aes.go: AES-128-ECB with PKCS5 padding, a key from SHA-1, and base64 text. Bytes are numbers
-- below 256.
pub mod Bytes
pub mod Hex
pub mod Base64
pub mod Padding
pub mod Ecb
