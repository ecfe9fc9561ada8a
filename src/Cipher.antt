-- ===== src/Cipher.antt =====
-- The ciphers of hw1/src/hw1.c, with hw1/src/const.c and hw1/src/main.c.
pub mod Strings
pub mod Constants
pub mod Arguments
pub mod Polybius
pub mod MorseTables
pub mod Morse
pub mod Fractionated
pub mod Program
mod Tests
