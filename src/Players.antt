-- ===== src/Players.antt =====
-- app/services/players.py, but for the listing of the catalogue.
pub mod Once
use python_rng_game_platform.Base.{
  ℕ, Bool, true, false, not, ◌||◌, Option, none, some, ◌==◌, ◌==ˢ◌, if◌then◌else◌, Text, Result, ok,
  err, raise_if, ◌>>=◌, ◌>>◌,
}
use python_rng_game_platform.Models.Errors.{
  Error, not_found, forbidden, game_inactive, idempotency_conflict,
}
use python_rng_game_platform.Models.Rows.{Player, GameConfigVersion}
use python_rng_game_platform.GameRules.{or_raise}
use python_rng_game_platform.Store.{
  Db, Reply, rolled_back, committed, get_player, get_game, get_active_config,
}
use python_rng_game_platform.Store.Players.{new_player, add_player, Stored, provision_row}

-- The name, and what the new row is given: its key and its public label.
pub record PlayerCall : Type 0 where
  pub player_id : ℕ
  pub display_name : Text
  pub public_label : Text

abbrev pub asked_player : PlayerCall → Player
asked_player call = new_player call.player_id call.display_name call.public_label

unfoldable pub create_player : PlayerCall → Db → Reply Player
create_player call db = elim (add_player (asked_player call) db) [
  | err e ↦ rolled_back e db
  | ok work ↦ committed (asked_player call) work
]

-- The player, and whether the request created it.
pub record Provisioned : Type 0 where
  pub player : Player
  pub created : Bool

abbrev pub is_missing : Option Player → Bool
is_missing none = true
is_missing (some p) = false

-- `player.display_name != display_name or player.public_label != public_label`
abbrev pub differs : PlayerCall → Player → Bool
differs call p =
    not (p.display_name ==ˢ call.display_name) || not (p.public_label ==ˢ call.public_label)

unfoldable pub settle_identity : PlayerCall → Stored → Db → Reply Provisioned
settle_identity call stored db =
    if differs call stored.player
    then rolled_back idempotency_conflict db
    else committed
        (record { player = stored.player; created = is_missing (get_player call.player_id db) })
        stored.work

unfoldable pub provision_player : PlayerCall → Db → Reply Provisioned
unfolding settle_identity
provision_player call db =
    elim (provision_row call.player_id call.display_name call.public_label db) [
      | err e ↦ rolled_back e db
      | ok stored ↦ settle_identity call stored db
    ]

unfoldable pub retrieve_player : ℕ → ℕ → Db → Result Error Player
retrieve_player player_id owner_id db = do
  raise_if (not (player_id == owner_id)) forbidden
  or_raise (get_player player_id db) not_found

unfoldable pub active_config : Text → Db → Result Error GameConfigVersion
active_config game_key db = do
  game ← or_raise (get_game game_key db) not_found
  raise_if (not game.is_active) game_inactive
  or_raise (get_active_config game.id db) not_found
