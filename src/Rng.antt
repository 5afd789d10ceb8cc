-- ===== src/Rng.antt =====
-- app/rng.py: the cryptographic outcome provider and the commitment/reveal protocol v1.
pub mod Encoding
pub mod Types
pub mod Crypto
pub mod Uniform
pub mod Select
pub mod Messages
pub mod Derive
pub mod Verify
pub mod Tests
