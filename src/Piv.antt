-- ===== src/Piv.antt =====
-- src/wp11_proto_piv.c and wolfp11/wp11_proto_piv.h: the PIV card application.
pub mod Tlv
pub mod Apdu
pub mod Select
pub mod Pin
pub mod Auth
pub mod Cert
pub mod Keygen
mod Examples
