-- ===== src/Store/Players.antt =====
-- The writes of app/persistence/players.py.
use python_rng_game_platform.Base.{
  ℕ, Bool, ◌||◌, [], ◌∷◌, ◌++◌, none, some, ◌==◌, ◌==ˢ◌, if◌then◌else◌, Text, any, Result, ok, err,
  ◌>>=◌,
}
use python_rng_game_platform.Models.Errors.{Error, integrity_error, runtime_error}
use python_rng_game_platform.Models.Rows.{Player, PlayerStatus}
use python_rng_game_platform.Store.{Db, get_player}

abbrev pub new_player : ℕ → Text → Text → Player
new_player id display_name public_label = record {
  id = id;
  display_name = display_name;
  public_label = public_label;
  status = PlayerStatus.active;
}

-- The constraints that a new player meets: the primary key and the public label.
abbrev pub player_clashes : Player → Player → Bool
player_clashes new p = p.id == new.id || p.public_label ==ˢ new.public_label

-- `add_player`, whose key and label are drawn.
unfoldable pub add_player : Player → Db → Result Error Db
add_player new db =
    if any (player_clashes new) db.players
    then err integrity_error
    else ok (record db { players = db.players ++ new ∷ [] })

-- The INSERT ... ON CONFLICT (id) DO NOTHING: a label that another player has still clashes.
unfoldable pub insert_player : Player → Db → Result Error Db
unfolding add_player
insert_player new db = if any (λ p. p.id == new.id) db.players then ok db else add_player new db

-- A row, and the tables with it.
pub record Stored : Type 0 where
  pub player : Player
  pub work : Db

-- The row that the INSERT left, which is there.
unfoldable pub provisioned_row : ℕ → Db → Result Error Stored
provisioned_row player_id work = elim (get_player player_id work) [
  | none ↦ err runtime_error
  | some p ↦ ok (record { player = p; work = work })
]

unfoldable pub provision_row : ℕ → Text → Text → Db → Result Error Stored
unfolding insert_player provisioned_row
provision_row player_id display_name public_label db = do
  work ← insert_player (new_player player_id display_name public_label) db
  provisioned_row player_id work
