-- ===== src/Leaderboards/Read.antt =====
-- The reads of app/services/leaderboards.py: boards, ranks, projection facts and public labels.
use python_rng_game_platform.Base.{
  ℕ, Bool, not, List, [], ◌∷◌, Option, none, some, ◌==◌, Text, Result, ok, raise_if, ◌>>=◌, ◌>>◌,
}
use python_rng_game_platform.Models.Errors.{
  Error, not_found, forbidden, leaderboard_entry_not_found,
}
use python_rng_game_platform.Models.Rows.{Game, FinalScore}
use python_rng_game_platform.Store.{Db, get_player}
use python_rng_game_platform.Store.Leaderboards.{
  Cursor, list_canonical_scores, count_canonical_scores, leaderboard_projection_revision, Ranked,
  player_canonical_rank,
}
use python_rng_game_platform.Fairness.Evaluate.{require}
use python_rng_game_platform.Leaderboards.{active_player, eligible_leaderboard_game}

-- A page that is asked for.
pub record PageCall : Type 0 where
  pub owner_id : ℕ
  pub game_key : Text
  pub period_start : ℕ
  pub limit : ℕ
  pub offset : ℕ
  pub after : Option Cursor

pub record Page : Type 0 where
  pub game : Game
  pub scores : List FinalScore

unfoldable pub canonical_leaderboard : PageCall → Db → Result Error Page
canonical_leaderboard call db = do
  active_player call.owner_id db
  game ← eligible_leaderboard_game call.game_key db
  ok (record {
    game = game;
    scores =
        list_canonical_scores game.id call.period_start (some call.limit) call.offset call.after db;
  })

-- The facts that validate a projection.
pub record ProjectionFacts : Type 0 where
  pub game : Game
  pub count : ℕ
  pub revision : ℕ

-- `player_id is not None and player_id != owner_id`
abbrev pub is_other : Option ℕ → ℕ → Bool
is_other none owner_id = Bool.false
is_other (some player_id) owner_id = not (player_id == owner_id)

unfoldable pub leaderboard_projection_facts :
    ℕ → Text → ℕ → Option ℕ → Db → Result Error ProjectionFacts
leaderboard_projection_facts owner_id game_key period_start player_id db = do
  raise_if (is_other player_id owner_id) forbidden
  active_player owner_id db
  game ← eligible_leaderboard_game game_key db
  ok (record {
    game = game;
    count = count_canonical_scores game.id period_start db;
    revision = leaderboard_projection_revision game.id period_start db;
  })

-- The public label of a player, under its key.
pub record PublicLabel : Type 0 where
  pub player_id : ℕ
  pub public_label : Text

-- The labels of some players, in the order asked; a player that is missing fails the read.
unfoldable pub public_leaderboard_labels : List ℕ → Db → Result Error (List PublicLabel)
public_leaderboard_labels [] db = ok []
public_leaderboard_labels (id ∷ ids) db = do
  player ← require (get_player id db) not_found
  rest ← public_leaderboard_labels ids db
  ok (record { player_id = player.id; public_label = player.public_label } ∷ rest)

unfoldable pub canonical_player_rank : ℕ → ℕ → Text → ℕ → Db → Result Error Ranked
canonical_player_rank player_id owner_id game_key period_start db = do
  raise_if (not (player_id == owner_id)) forbidden
  active_player player_id db
  game ← eligible_leaderboard_game game_key db
  require (player_canonical_rank player_id game.id period_start db) leaderboard_entry_not_found
