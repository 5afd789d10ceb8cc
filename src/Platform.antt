-- ===== src/Platform.antt =====
-- What the services of app/services take from outside: the hash functions, `json.dumps` with sorted
-- keys, the outcome provider, the rendering of a time span as milliseconds and of a time as text, and the number of
-- rounds that a draw may take. With them
-- `_request_fingerprint` of app/services/_common.py.
use python_rng_game_platform.Base.{ℕ, Bytes, Text, codes}
use python_rng_game_platform.Rng.Crypto.{Crypto}
use python_rng_game_platform.Rng.Encoding.{hex}
use python_rng_game_platform.Models.Json.{text, object, Fields, end, field}
use python_rng_game_platform.GameRules.{OutcomeProvider}

pub record Platform : Type 0 where
  pub crypto : Crypto
  pub dumps : Fields → Bytes
  pub provider : OutcomeProvider
  pub milliseconds : ℕ → ℕ
  pub timestamp : ℕ → Text
  pub fuel : ℕ

unfoldable pub request_fingerprint : Platform → Text → Fields → Text
request_fingerprint platform operation material = hex (
    platform.crypto.sha256 (
      platform.dumps
        (field (codes "input") (object material) (field (codes "operation") (text operation) end))))
