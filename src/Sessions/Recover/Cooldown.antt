-- ===== src/Sessions/Recover/Cooldown.antt =====
-- The time that app/services/sessions.py shows for the next play, against the guard of a new session.
use python_rng_game_platform.Base.{
  if◌then◌else◌, Bool, true, Option-cases, Result-cases, ◌+◌, ℕ, ◌≡◌, refl, false, none, some,
  raise_if, is_some, inl, inr, ltb, ◌>>=◌, ok,
}
use python_rng_game_platform.Models.Errors.{Error, cooldown_active}
use python_rng_game_platform.Models.Rows.{GameSession, is_active_session}
use python_rng_game_platform.Models.Schemas.{validate_payload, cooldown_of}
use python_rng_game_platform.Store.{Db, get_config_by_id}
use python_rng_game_platform.Sessions.Create.{check_latest, seconds}
use python_rng_game_platform.Sessions.Recover.{next_play}

-- A guard, and a time that is shown under the same test.
shown :
    (time : ℕ) (e : Error) (c : Bool)
    → raise_if c e ≡ (ok (if c then some time else none) >>= λ t. raise_if (is_some t) e)
shown time e true = refl
shown time e false = refl

-- With the latest session over, a new session is refused for its cooldown exactly if a time for the
-- next play is shown, and both fail alike when the configuration cannot be read.
check_latest-next_play :
    (latest : GameSession) (now : ℕ) (db : Db)
    → is_active_session latest.status ≡ false
    → check_latest (some latest) now db
      ≡ (next_play (some latest) now db >>= λ time. raise_if (is_some time) cooldown_active)
unfolding check_latest next_play
check_latest-next_play latest now db over =
    elim (Option-cases (get_config_by_id latest.config_version_id db)) [
      | inl missed ↦ rw (over, missed) refl
      | inr (config, found) ↦ elim (Result-cases (validate_payload config.payload)) [
        | inl (payload, valid) ↦
            rw (over, found, valid)
              (shown (latest.created_at + seconds (cooldown_of payload)) cooldown_active
                (ltb now (latest.created_at + seconds (cooldown_of payload))))
        | inr (e, refused) ↦ rw (over, found, refused) refl
      ]
    ]
