-- ===== src/Pki.antt =====
-- tools/gen_hawk_pki.c: the DER writer, the certificates and keys of the HAWK test PKI.
pub mod Der
pub mod Certificate
pub mod Pem
pub mod Generator
mod Tests
