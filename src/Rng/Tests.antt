-- ===== src/Rng/Tests.antt =====
-- Runs of app/rng.py on concrete inputs, and its theorems at inputs that meet their hypotheses.
use python_rng_game_platform.Base.{
  ℕ, ◌%◌, ◌^◌, ◌<◌, ◌≡◌, ◌≢◌, ◌↔◌, refl, List, [], ◌∷◌, ◌++◌, arith, none, some, ◌==ˢ◌, Bytes,
  codes, ok,
}
use python_rng_game_platform.Rng.Crypto.{toy}
use python_rng_game_platform.Rng.Encoding.{
  decimal, decimal_rounds, hex, hex_digit, is_hex_digit, int_from_bytes, from_big_endian, to_bytes,
  uuid_str, dashed, group,
}
use python_rng_game_platform.Rng.Types.{
  RewardBand, DailySpinDerivation, validate_server_seed, validate_client_seed, is_printable,
  validate_nonce, validate_digest, validate_supported_v1, validate_band, validate_bands,
  validate_reward_bands, is_nil, protocol_version_v1, algorithm_hmac_sha256,
  daily_spin_mapping_version_v1, daily_spin_game_key,
}
use python_rng_game_platform.Rng.Uniform.{
  rejection_limit, uniform, uniform_loop, digest_at, uniform_base, DerivedValue,
}
use python_rng_game_platform.Rng.Select.{select_loop, select_daily_spin_reward}
use python_rng_game_platform.Rng.Select.Valid.{IsRewardMap, validate_reward_bands_iff}
use python_rng_game_platform.Rng.Select.Interval.{HoldsAt, select_HoldsAt}
use python_rng_game_platform.Rng.Select.Shares.{picks, band_shares}
use python_rng_game_platform.Rng.Uniform.Counting.{count_below}
use python_rng_game_platform.Rng.Uniform.Provider.{uniform_sound, uniform_total, FirstDraw}
use python_rng_game_platform.Rng.Messages.Mapping.{mapping_bytes_inj}
use python_rng_game_platform.Rng.Messages.Derivation.{derivation_message_inj}
use python_rng_game_platform.Rng.Derive.Draws.{raw_at, digest_at as hmac_at}
use python_rng_game_platform.Rng.Derive.Inputs.{IsDraw, derive_sound}
use python_rng_game_platform.Rng.Derive.FirstHit.{derive_returns}
use python_rng_game_platform.Rng.Verify.{server_seed_commitment, verify_daily_spin_proof}
use python_rng_game_platform.Rng.Verify.Sound.{IsGenuine, verify_sound}
use python_rng_game_platform.Rng.Verify.Complete.{proof_of, accepted, verify_complete}
use python_rng_game_platform.Rng.Encoding.Laws.{to_bytes-IsByte}
use python_rng_game_platform.Rng.Messages.{
  field, sized_field, band_lines, all_band_lines, daily_spin_mapping_bytes,
  daily_spin_mapping_digest, MessageInput, message_bytes, validate_message,
  daily_spin_derivation_message,
}
use python_rng_game_platform.Rng.Derive.{
  DrawInput, message_input, derivation, draw_limit, accept, derive_loop, validate_draw,
  derive_daily_spin,
}

abbrev pub bands : List RewardBand
bands =
    record { key = codes "coins_10"; weight = 80; value = 10 }
    ∷ record { key = codes "coins_50"; weight = 20; value = 50 }
    ∷ []

decimal-407 : decimal 407 ≡ codes "407"
unfolding decimal decimal_rounds
decimal-407 = refl

uuid_str-one : uuid_str 1 ≡ codes "00000000-0000-0000-0000-000000000001"
unfolding uuid_str dashed group hex hex_digit to_bytes
uuid_str-one = refl

bands_valid : validate_reward_bands bands ≡ ok tt
unfolding validate_reward_bands validate_bands validate_band is_nil ◌==ˢ◌
bands_valid = refl

select-80 :
    select_daily_spin_reward bands 80
    ≡ ok (record { key = codes "coins_50"; weight = 20; value = 50 })
unfolding select_daily_spin_reward select_loop validate_reward_bands validate_bands validate_band
    is_nil ◌==ˢ◌
select-80 = refl

abbrev input : DrawInput
input = record {
  server_seed = to_bytes 32 7;
  client_seed = codes "lucky";
  nonce = 0;
  config_version_id = 3;
  session_id = 4;
  reward_bands = bands;
  game_key = daily_spin_game_key;
  protocol_version = protocol_version_v1;
  algorithm = algorithm_hmac_sha256;
  mapping_version = daily_spin_mapping_version_v1;
}

abbrev pub drawn : DailySpinDerivation
drawn = record {
  mapping_digest = codes "315d2e7765696768743d32300a7265776172645b315d2e76616c75653d35300a";
  raw_digest_hex = codes "6432653736363136633735363533643335333030610a617474656d70743d300a";
  raw_value = 45320325776452807737025648074777028822445505307496713498804121221156994625546;
  normalized_value = 46;
  attempt = 0;
  reward = record { key = codes "coins_10"; weight = 80; value = 10 };
}

input_draws : derive_daily_spin toy 1 input ≡ ok (some drawn)
unfolding derive_daily_spin validate_draw validate_server_seed validate_supported_v1 validate_nonce
    validate_reward_bands validate_bands validate_band is_nil ◌==ˢ◌ daily_spin_mapping_digest
    daily_spin_mapping_bytes all_band_lines band_lines field sized_field decimal decimal_rounds hex
    hex_digit derive_loop daily_spin_derivation_message validate_message validate_client_seed
    is_printable validate_digest is_hex_digit message_bytes uuid_str dashed group to_bytes
    int_from_bytes from_big_endian accept select_daily_spin_reward select_loop rejection_limit
    protocol_version_v1 algorithm_hmac_sha256 daily_spin_mapping_version_v1 daily_spin_game_key
input_draws = refl

bands-IsRewardMap : IsRewardMap bands
bands-IsRewardMap = (validate_reward_bands_iff bands).0 bands_valid

derive_sound_example : IsDraw toy input drawn
derive_sound_example = derive_sound toy 1 input input_draws

seed_commitment : server_seed_commitment toy input.server_seed ≡ ok (hex (to_bytes 32 7))
unfolding server_seed_commitment validate_server_seed hex hex_digit to_bytes int_from_bytes
    from_big_endian
seed_commitment = refl

verify_complete_example :
    verify_daily_spin_proof toy 1 (proof_of (hex (to_bytes 32 7)) input drawn) ≡ ok (some accepted)
verify_complete_example =
    verify_complete toy 1 input (to_bytes-IsByte 32 7) seed_commitment input_draws

verify_sound_example : IsGenuine toy 1 (proof_of (hex (to_bytes 32 7)) input drawn)
verify_sound_example =
    verify_sound toy 1 (proof_of (hex (to_bytes 32 7)) input drawn) {r = accepted}
      verify_complete_example refl

band_shares_example :
    count_below
      (rejection_limit 256 100)
      (λ raw. picks (codes "coins_50") (select_daily_spin_reward bands (raw % 100)))
    ≡ 40
band_shares_example =
    band_shares 256 (record { key = codes "coins_10"; weight = 80; value = 10 } ∷ [])
      (record { key = codes "coins_50"; weight = 20; value = 50 }) [] bands-IsRewardMap

select_HoldsAt_example :
    (band : RewardBand) × (select_daily_spin_reward bands 80 ≡ ok band) × HoldsAt bands 80 band
select_HoldsAt_example = select_HoldsAt bands 80 bands-IsRewardMap (omega arith)

validate_reward_bands_iff_example : (validate_reward_bands bands ≡ ok tt) ↔ IsRewardMap bands
validate_reward_bands_iff_example = validate_reward_bands_iff bands

mapping : Bytes
unfolding all_band_lines field decimal decimal_rounds
mapping =
    codes "RNG-GAME-PLATFORM-DAILY-SPIN-MAP/1\n"
    ++ field (codes "reward_count=") (decimal 2) (all_band_lines 0 bands)

bands_bytes : daily_spin_mapping_bytes bands ≡ ok mapping
unfolding daily_spin_mapping_bytes validate_reward_bands validate_bands validate_band is_nil ◌==ˢ◌
    mapping
bands_bytes = refl

mapping_bytes_inj_example : bands ≡ bands
mapping_bytes_inj_example = mapping_bytes_inj bands bands bands_bytes bands_bytes

abbrev first_message : MessageInput
first_message = message_input input drawn.mapping_digest

message_built : daily_spin_derivation_message first_message 0 ≡ ok (message_bytes first_message 0)
unfolding daily_spin_derivation_message validate_message validate_client_seed is_printable
    validate_digest is_hex_digit validate_supported_v1 validate_nonce protocol_version_v1
    algorithm_hmac_sha256 daily_spin_mapping_version_v1 daily_spin_game_key ◌==ˢ◌
message_built = refl

derivation_message_inj_example : (first_message ≡ first_message) × ◌≡◌ {A = ℕ} 0 0
derivation_message_inj_example =
    derivation_message_inj first_message first_message 0 0
      (record { config_fits = omega arith; session_fits = omega arith })
      (record { config_fits = omega arith; session_fits = omega arith }) message_built message_built

input_valid : validate_draw input ≡ ok tt
unfolding validate_draw validate_server_seed validate_supported_v1 validate_nonce
    validate_reward_bands validate_bands validate_band is_nil ◌==ˢ◌ protocol_version_v1
    algorithm_hmac_sha256 daily_spin_mapping_version_v1 daily_spin_game_key to_bytes
input_valid = refl

client_seed_valid : validate_client_seed input.client_seed ≡ ok input.client_seed
unfolding validate_client_seed is_printable
client_seed_valid = refl

mapping_digested : daily_spin_mapping_digest toy bands ≡ ok drawn.mapping_digest
unfolding daily_spin_mapping_digest daily_spin_mapping_bytes validate_reward_bands validate_bands
    validate_band is_nil ◌==ˢ◌ all_band_lines band_lines field sized_field decimal decimal_rounds
    hex hex_digit to_bytes int_from_bytes from_big_endian
mapping_digested = refl

raw_accepted : raw_at toy (to_bytes 32 7) first_message 0 < draw_limit bands
unfolding message_bytes field sized_field decimal decimal_rounds uuid_str dashed group hex hex_digit
    to_bytes int_from_bytes from_big_endian rejection_limit daily_spin_game_key
raw_accepted = omega arith

derive_returns_example :
    (reward : RewardBand) × (derive_daily_spin toy 3 input
      ≡ ok (
          some (
            derivation bands drawn.mapping_digest 0
              (hmac_at toy (to_bytes 32 7) first_message 0)
              reward)))
derive_returns_example =
    derive_returns toy 3 input drawn.mapping_digest 0 input_valid client_seed_valid mapping_digested
      (omega arith) raw_accepted (λ j h. absurd (omega arith))

abbrev first_draw : DerivedValue
first_draw = record {
  value = 4;
  digest_hex = codes "3030302d303030302d303030302d3030303030303030303030323a7000000000";
}

uniform_run : uniform toy 2 [] 1 (codes "g") 2 (codes "p") 6 ≡ ok (some first_draw)
unfolding uniform uniform_loop uniform_base digest_at rejection_limit uuid_str dashed group hex
    hex_digit to_bytes int_from_bytes from_big_endian
uniform_run = refl

uniform_sound_example :
    (first_draw.value < 6)
    × FirstDraw toy []
        (uniform_base 1 (codes "g") 2 (codes "p"))
        (rejection_limit (2 ^ 256) 6)
        6
        0
        first_draw
uniform_sound_example =
    uniform_sound toy 2 [] 1 (codes "g") 2 (codes "p") 6 {d = first_draw} uniform_run

uniform_total_example : uniform toy 4294967297 [] 1 (codes "g") 2 (codes "p") 6 ≢ ok none
uniform_total_example = uniform_total toy 4294967297 [] 1 (codes "g") 2 (codes "p") 6 (omega arith)
