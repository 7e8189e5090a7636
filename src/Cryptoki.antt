-- ===== src/Cryptoki.antt =====
-- The Cryptoki front end, src/wp11_pkcs11.c.
pub mod State
pub mod Sessions
pub mod Find
pub mod Create
pub mod Objects
pub mod SignInit
pub mod Cka
pub mod Attributes
pub mod Sign
pub mod Verify
pub mod Digest
pub mod EncryptInit
pub mod Encrypt
pub mod Hotplug
pub mod Slots
pub mod Machine
mod Examples
