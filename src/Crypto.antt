-- ===== src/Crypto.antt =====
-- server/src/internal/crypto: the ciphers of the auth port and of the game port, and the RSA
-- credential block.
pub mod GameCrypt
pub mod XorCipher
pub mod BlowfishLe
pub mod Rsa
