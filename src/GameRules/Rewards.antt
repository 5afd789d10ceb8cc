-- ===== src/GameRules/Rewards.antt =====
-- The prediction card and the daily spin of app/game_rules.py: rewards and replays.
use python_rng_game_platform.Base.{
  ℕ, ◌≡◌, ◌↔◌, refl, ap, sym, ◌∙◌, Bool, true, inl, inr, arith, Option, none, some, ◌==ˢ◌,
  ==ˢ-sound, ==ˢ_refl, if◌then◌else◌, Option-cases, Text, codes, length, any, get_elem?, Result, ok,
  >>=-eq-ok, ok_inj, ◌>>=◌,
}
use python_rng_game_platform.Rng.Uniform.{DerivedValue}
use python_rng_game_platform.Models.Json.{text, boolean, Fields, get, get_first, get_later}
use python_rng_game_platform.Models.Errors.{Error, index_error}
use python_rng_game_platform.Models.Schemas.{PredictionCardConfig, prediction_card_config}
use python_rng_game_platform.Models.Rows.{GameConfigVersion, GameSession, Outcome}
use python_rng_game_platform.GameRules.{
  PlayIntent, OutcomeProvider, CardPlay, card_play, draw_card, prediction_result, prediction_value,
  prediction_retry_matches, validated_config, evaluate_prediction, or_raise, key_text,
  prediction_card,
}

or_raise-inv : {A : Type 0} (o : Option A) (e : Error) {a : A} → or_raise o e ≡ ok a → o ≡ some a
or_raise-inv none e h = cc
or_raise-inv (some a) e h = ap some (ok_inj h)

draw_card-inv :
    (provider : OutcomeProvider) (sid cid : ℕ) (play : CardPlay) {r : Fields}
    → draw_card provider sid cid play ≡ ok r
    → (derived : DerivedValue) × (provider sid
          (codes "prediction_card")
          cid
          (codes "prediction_card")
          (length play.card.choices)
        ≡ ok derived)
      × (authoritative : Text) × (get_elem? play.card.choices derived.value ≡ some authoritative)
      × (r ≡ prediction_result play.choice authoritative derived)
unfolding draw_card key_text
draw_card-inv provider sid cid play {r} e =
    let choices = play.card.choices in
    let finish : DerivedValue → Text → Result Error Fields =
      λ d a. ok (prediction_result play.choice a d) in
    let drawn =
      >>=-eq-ok
        (provider sid (key_text prediction_card) cid (key_text prediction_card) (length choices))
        (λ d. or_raise (get_elem? choices d.value) index_error >>= finish d) e in
    let looked =
      >>=-eq-ok (or_raise (get_elem? choices drawn.0.value) index_error) (finish drawn.0) drawn.2 in
    (
      drawn.0,
      drawn.1,
      looked.0,
      or_raise-inv (get_elem? choices drawn.0.value) index_error looked.1,
      sym (ok_inj looked.2),
    )

card_play-config :
    (config : GameConfigVersion) (intent : PlayIntent) {play : CardPlay}
    → card_play config intent ≡ ok play
    → (validated_config config ≡ ok (prediction_card_config play.card))
      × (intent.choice ≡ some play.choice)
      × (intent.actions ≡ none)
      × (any (λ c. c ==ˢ play.choice) play.card.choices ≡ true)
unfolding card_play
card_play-config config intent {play} e = (ground arith, ground arith, ground arith, ground arith)

get-player_choice :
    (choice authoritative : Text) (d : DerivedValue)
    → get (codes "player_choice") (prediction_result choice authoritative d) ≡ text choice
get-player_choice choice authoritative d = get_first (codes "player_choice") (text choice) _

get-authoritative_choice :
    (choice authoritative : Text) (d : DerivedValue)
    → get (codes "authoritative_choice") (prediction_result choice authoritative d)
      ≡ text authoritative
get-authoritative_choice choice authoritative d =
    get_later (codes "authoritative_choice") (codes "player_choice") _ _ (unfold ◌==ˢ◌ in refl)
    ∙ get_first (codes "authoritative_choice") (text authoritative) _

get_correct :
    (choice authoritative : Text) (d : DerivedValue)
    → get (codes "correct") (prediction_result choice authoritative d)
      ≡ boolean (choice ==ˢ authoritative)
get_correct choice authoritative d =
    get_later (codes "correct") (codes "player_choice") _ _ (unfold ◌==ˢ◌ in refl)
    ∙ get_later (codes "correct") (codes "authoritative_choice") _ _ (unfold ◌==ˢ◌ in refl)
    ∙ get_first (codes "correct") _ _

-- The replays that match an outcome are those with its choice and no actions.
retry-choice :
    (outcome : Outcome) (choice : Text) (intent : PlayIntent)
    → get (codes "player_choice") outcome.result ≡ text choice
    → prediction_retry_matches outcome intent ≡ true
    → (intent.choice ≡ some choice) × (intent.actions ≡ none)
unfolding prediction_retry_matches
retry-choice outcome choice intent found e = elim (Option-cases intent.choice) [
  | inl absent ↦ ground arith
  | inr (c, given) ↦ ground (arith, ==ˢ-sound c choice)
]

choice-retry :
    (outcome : Outcome) (choice : Text) (intent : PlayIntent)
    → get (codes "player_choice") outcome.result ≡ text choice
    → intent.choice ≡ some choice
    → intent.actions ≡ none
    → prediction_retry_matches outcome intent ≡ true
unfolding prediction_retry_matches
choice-retry outcome choice intent found c a = ground (arith, ==ˢ_refl choice)

prediction_value-eq :
    (config : GameConfigVersion) (outcome : Outcome) (card : PredictionCardConfig) (correct : Bool)
    → validated_config config ≡ ok (prediction_card_config card)
    → get (codes "correct") outcome.result ≡ boolean correct
    → prediction_value config outcome ≡ ok (if correct then card.correct_reward else 0)
unfolding prediction_value
prediction_value-eq config outcome card correct valid found = rw (valid, found) refl

-- An accepted prediction makes a choice of the configured card and has no actions. The provider was asked
-- for a position with the number of choices as its bound, under the session, the configuration and the key
-- of the game as its purpose; the recorded authoritative choice is the one at the position that it answered,
-- the reward is the configured one exactly if the two choices agree, and a later request is a replay of it
-- exactly if it makes the same choice and has no actions.
pub evaluate_prediction_sound :
    (provider : OutcomeProvider) (s : GameSession) (config : GameConfigVersion)
    (intent : PlayIntent) {r : Fields} (outcome : Outcome)
    → evaluate_prediction provider s config intent ≡ ok r
    → outcome.result ≡ r
    → (play : CardPlay) × (card_play config intent ≡ ok play)
      × (validated_config config ≡ ok (prediction_card_config play.card))
      × (intent.choice ≡ some play.choice)
      × (intent.actions ≡ none)
      × (any (λ c. c ==ˢ play.choice) play.card.choices ≡ true)
      × (derived : DerivedValue) × (provider s.id
            (codes "prediction_card")
            config.id
            (codes "prediction_card")
            (length play.card.choices)
          ≡ ok derived)
      × (authoritative : Text) × (get_elem? play.card.choices derived.value ≡ some authoritative)
      × (get (codes "authoritative_choice") r ≡ text authoritative)
      × (prediction_value config outcome
          ≡ ok (if play.choice ==ˢ authoritative then play.card.correct_reward else 0))
      × ((later : PlayIntent)
          → (prediction_retry_matches outcome later ≡ true)
            ↔ ((later.choice ≡ some play.choice) × (later.actions ≡ none)))
unfolding evaluate_prediction
evaluate_prediction_sound provider s config intent outcome e same =
    let guarded = >>=-eq-ok (card_play config intent) (draw_card provider s.id config.id) e in
    let (derived, answered, authoritative, at, shape) =
      draw_card-inv provider s.id config.id guarded.0 guarded.2 in
    let play = guarded.0 in
    let (valid, made, bare, offered) = card_play-config config intent guarded.1 in
    let found =
      ap (get (codes "player_choice")) (same ∙ shape)
      ∙ get-player_choice play.choice authoritative derived in
    (
      play,
      guarded.1,
      valid,
      made,
      bare,
      offered,
      derived,
      answered,
      authoritative,
      at,
      ap (get (codes "authoritative_choice")) shape
          ∙ get-authoritative_choice play.choice authoritative derived,
      prediction_value-eq config outcome play.card (play.choice ==ˢ authoritative) valid (
          ap (get (codes "correct")) (same ∙ shape)
          ∙ get_correct play.choice authoritative derived),
      λ later. (
        retry-choice outcome play.choice later found,
        λ both. choice-retry outcome play.choice later found both.0 both.1,
      ),
    )
