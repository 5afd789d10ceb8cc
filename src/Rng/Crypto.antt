-- ===== src/Rng/Crypto.antt =====
-- The hash functions that app/rng.py takes from `hashlib` and `hmac`: parameters of the model, with
-- the shape of a digest (32 bytes) as the only law.
use python_rng_game_platform.Base.{◌≡◌, ◌++◌, Bytes, length, All}
use python_rng_game_platform.Rng.Encoding.{to_bytes, int_from_bytes}
use python_rng_game_platform.Rng.Encoding.Laws.{IsByte, length-to_bytes, to_bytes-IsByte}

pub record Crypto : Type 0 where
  pub sha256 : Bytes → Bytes
  pub hmac_sha256 : Bytes → Bytes → Bytes
  pub length-sha256 : (m : Bytes) → length (sha256 m) ≡ 32
  pub sha256-IsByte : (m : Bytes) → All IsByte (sha256 m)
  pub length-hmac_sha256 : (k m : Bytes) → length (hmac_sha256 k m) ≡ 32
  pub hmac_sha256-IsByte : (k m : Bytes) → All IsByte (hmac_sha256 k m)

-- A toy instance, for runs on concrete inputs.
abbrev pub toy_hash : Bytes → Bytes
toy_hash m = to_bytes 32 (int_from_bytes m)

abbrev pub toy : Crypto
toy = record {
  sha256 = toy_hash;
  hmac_sha256 = λ k m. toy_hash (k ++ m);
  length-sha256 = λ m. length-to_bytes 32 _;
  sha256-IsByte = λ m. to_bytes-IsByte 32 _;
  length-hmac_sha256 = λ k m. length-to_bytes 32 _;
  hmac_sha256-IsByte = λ k m. to_bytes-IsByte 32 _;
}
