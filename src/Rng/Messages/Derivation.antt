-- ===== src/Rng/Messages/Derivation.antt =====
-- The HMAC message of a draw in app/rng.py determines every input of the draw.
use python_rng_game_platform.Base.{
  ℕ, ◌^◌, ◌<◌, ◌≡◌, refl, sym, ◌∙◌, false, not, List, [], ◌∷◌, arith, Bytes, Text, codes, length,
  All, ==ˢ_refl, append_cancel_left, any, ok, >>=-eq-ok, ok_inj,
}
use python_rng_game_platform.Rng.Crypto.{Crypto}
use python_rng_game_platform.Rng.Encoding.{hex, is_hex_digit}
use python_rng_game_platform.Rng.Encoding.Laws.{IsByte, IsHexDigit, hex-IsHexDigit, length-hex}
use python_rng_game_platform.Rng.Types.{
  RewardBand, validate_digest, validate_supported_v1, validate_client_seed, validate_nonce,
  protocol_version_v1, algorithm_hmac_sha256, daily_spin_mapping_version_v1,
}
use python_rng_game_platform.Rng.Messages.{
  MessageInput, message_bytes, validate_message, daily_spin_mapping_bytes,
  daily_spin_mapping_digest, daily_spin_derivation_message,
}
use python_rng_game_platform.Rng.Messages.Fields.{
  number_field, fixed_field, sized_field_inj, uuid_field,
}

-- The identifiers are UUIDs.
pub record HasUuids (m : MessageInput) : Type 0 where
  pub config_fits : m.config_version_id < 256 ^ 16
  pub session_fits : m.session_id < 256 ^ 16

validate_digest-length : (t : Text) → validate_digest t ≡ ok tt → length t ≡ 64
unfolding validate_digest
validate_digest-length t h = ground arith

supported-game :
    (game_key p a v : Text)
    → validate_supported_v1 game_key p a v ≡ ok tt
    → validate_supported_v1 game_key protocol_version_v1 algorithm_hmac_sha256
        daily_spin_mapping_version_v1
      ≡ ok tt
unfolding validate_supported_v1
supported-game game_key p a v h =
    rw
      (
        ==ˢ_refl protocol_version_v1,
        ==ˢ_refl algorithm_hmac_sha256,
        ==ˢ_refl daily_spin_mapping_version_v1,
      )
      (ground arith)

message_digest-length :
    (m : MessageInput) → validate_message m ≡ ok tt → length m.mapping_digest ≡ 64
unfolding validate_message
message_digest-length m h = validate_digest-length m.mapping_digest (ground arith)

message_bytes_inj :
    (m n : MessageInput) (i j : ℕ)
    → HasUuids m
    → HasUuids n
    → length m.mapping_digest ≡ length n.mapping_digest
    → message_bytes m i ≡ message_bytes n j
    → (m ≡ n) × (i ≡ j)
unfolding message_bytes
message_bytes_inj m n i j hm hn l e =
    let games = sized_field_inj (codes "game_key=") m.game_key n.game_key (
      append_cancel_left
        (codes
          "RNG-GAME-PLATFORM-PVF/1\nalgorithm=hmac-sha256\nprotocol=rng-game-platform-pvf-v1\n")
        e) in
    let configs =
      uuid_field (codes "config_version_id=") m.config_version_id n.config_version_id hm.config_fits
        hn.config_fits games.1 in
    let sessions =
      uuid_field (codes "session_id=") m.session_id n.session_id hm.session_fits hn.session_fits
        configs.1 in
    let seeds = sized_field_inj (codes "client_seed=") m.client_seed n.client_seed sessions.1 in
    let nonces = number_field (codes "nonce=") m.nonce n.nonce seeds.1 in
    let digests = fixed_field (codes "mapping_digest=") m.mapping_digest n.mapping_digest l (
      append_cancel_left
        (codes "purpose=daily_spin\nmapping_version=daily-spin-weighted-reward-v1\n") nonces.1) in
    let attempts = number_field (codes "attempt=") i j digests.1 in
    (
      λ k. record {
        client_seed = seeds.0 k;
        nonce = nonces.0 k;
        config_version_id = configs.0 k;
        session_id = sessions.0 k;
        mapping_digest = digests.0 k;
        game_key = games.0 k;
      },
      attempts.0,
    )

-- Behind the guards the message is built.
pub message_of_valid :
    (m : MessageInput) (attempt : ℕ)
    → validate_message m ≡ ok tt
    → daily_spin_derivation_message m attempt ≡ ok (message_bytes m attempt)
unfolding daily_spin_derivation_message
message_of_valid m attempt h = rw h refl

pub valid_of_message :
    (m : MessageInput) (attempt : ℕ) {b : Bytes}
    → daily_spin_derivation_message m attempt ≡ ok b
    → validate_message m ≡ ok tt
unfolding daily_spin_derivation_message
valid_of_message m attempt e =
    (>>=-eq-ok (validate_message m) (λ _. ok (message_bytes m attempt)) e).1

-- The guards of a message, one by one.
pub message_of_parts :
    (m : MessageInput) (protocol_version algorithm mapping_version : Text)
    → validate_supported_v1 m.game_key protocol_version algorithm mapping_version ≡ ok tt
    → validate_client_seed m.client_seed ≡ ok m.client_seed
    → validate_nonce m.nonce ≡ ok tt
    → validate_digest m.mapping_digest ≡ ok tt
    → validate_message m ≡ ok tt
unfolding validate_message
message_of_parts m p a v supported seed nonce digest =
    rw (supported-game m.game_key p a v supported, seed, nonce, digest) refl

All-hex : (t : Text) → All IsHexDigit t → any (λ c. not (is_hex_digit c)) t ≡ false
All-hex [] h = refl
All-hex (c ∷ t) h = rw h.0 (All-hex t h.1)

pub hex-valid : (b : Bytes) → length b ≡ 32 → All IsByte b → validate_digest (hex b) ≡ ok tt
unfolding validate_digest
hex-valid b l h =
    let n : length (hex b) ≡ 64 = omega (arith, length-hex b) in
    rw (n, All-hex (hex b) (hex-IsHexDigit b h)) refl

-- A mapping digest is one that `validate_digest` accepts.
pub digest_is_hex :
    (c : Crypto) (bands : List RewardBand) {digest : Text}
    → daily_spin_mapping_digest c bands ≡ ok digest
    → validate_digest digest ≡ ok tt
unfolding daily_spin_mapping_digest
digest_is_hex c bands e =
    let bytes = >>=-eq-ok (daily_spin_mapping_bytes bands) (λ b. ok (hex (c.sha256 b))) e in
    rw (ok_inj (sym bytes.2))
      (hex-valid (c.sha256 bytes.0) (c.length-sha256 bytes.0) (c.sha256-IsByte bytes.0))

-- No two draws share an HMAC message: if two messages are built, on identifiers that fit in 128 bits,
-- and are equal, then so are all their inputs, the attempt included.
pub derivation_message_inj :
    (m n : MessageInput) (i j : ℕ) {b : Bytes}
    → HasUuids m
    → HasUuids n
    → daily_spin_derivation_message m i ≡ ok b
    → daily_spin_derivation_message n j ≡ ok b
    → (m ≡ n) × (i ≡ j)
unfolding daily_spin_derivation_message
derivation_message_inj m n i j hm hn em en =
    let pm = >>=-eq-ok (validate_message m) (λ _. ok (message_bytes m i)) em in
    let pn = >>=-eq-ok (validate_message n) (λ _. ok (message_bytes n j)) en in
    message_bytes_inj m n i j hm hn
      (message_digest-length m pm.1 ∙ sym (message_digest-length n pn.1)) (ok_inj (pm.2 ∙ sym pn.2))
