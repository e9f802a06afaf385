-- ===== src/Codes.antt =====
-- internal/crypto/codegen.go: slot codes, and internal/signaling/code.go: what of a code is sent.
-- A text is its bytes. crypto/rand is an argument: the 32 bits that it gave, or none if it failed.
pub mod Words
pub mod Wordlist
pub mod Split
pub mod Secret
pub mod Generate
mod Tests
