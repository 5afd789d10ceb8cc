-- ===== src/GameRules/Scoring.antt =====
-- The skill check of app/game_rules.py: scores.
use native.Mathlib.Nat.{div-mul-le_self, div-lt_iff_lt-mul, div-le_of_le-mul}
use python_rng_game_platform.Base.{
  ℕ, ◌+◌, ◌-◌, ◌*◌, ◌/◌, ◌≤◌, ◌<◌, ◌≡◌, ◌≢◌, refl, ap, sym, ◌∙◌, List, [], ◌∷◌, inl, inr, arith,
  some, ◌==◌, Bool-cases, codes, length, take, get_elem?, ok, >>=-eq-ok, ok_inj,
}
use python_rng_game_platform.Models.Json.{number, Fields, get, get_first}
use python_rng_game_platform.Models.Schemas.{SkillCheckConfig, skill_check_config}
use python_rng_game_platform.Models.Rows.{GameConfigVersion, GameSession, Outcome}
use python_rng_game_platform.GameRules.{
  PlayIntent, correct_prefix, SkillPlay, skill_play, score_play, skill_result, validated_config,
  floor_div, evaluate_skill, skill_value,
}

-- `n` is the length of the longest common prefix of two lists.
abbrev pub IsCommonPrefix : ℕ → List ℕ → List ℕ → Type 0
IsCommonPrefix n xs ys =
    (n ≤ length xs)
    × (n ≤ length ys)
    × (take n xs ≡ take n ys)
    × ((x y : ℕ) → get_elem? xs n ≡ some x → get_elem? ys n ≡ some y → x ≢ y)

-- The loop counts the longest common prefix of the actions and the challenge.
pub correct_prefix-IsCommonPrefix :
    (actions challenge : List ℕ)
    → IsCommonPrefix (correct_prefix actions challenge) actions challenge
unfolding correct_prefix
correct_prefix-IsCommonPrefix [] challenge = (omega arith, omega arith, refl, λ x y p q. cc)
correct_prefix-IsCommonPrefix (a ∷ actions) [] = (omega arith, omega arith, refl, λ x y p q. cc)
correct_prefix-IsCommonPrefix (a ∷ actions) (e ∷ challenge) = elim (Bool-cases (a == e)) [
  | inl same ↦
      let (la, lc, heads, next) = correct_prefix-IsCommonPrefix actions challenge in
      rw same (omega arith, omega arith, ground arith, next)
  | inr differs ↦ rw differs (omega arith, omega arith, refl, λ x y p q. ground arith)
]

-- What a score is: the share of the challenge that was repeated, of the maximal score, rounded down.
pub record IsScore (play : SkillPlay) (score : ℕ) : Type 0 where
  pub challenged : 0 < length play.challenge
  pub counts :
      IsCommonPrefix (correct_prefix play.actions play.challenge) play.actions play.challenge
  pub rounds_down :
      score * length play.challenge
      ≤ play.skill.max_score * correct_prefix play.actions play.challenge
  pub rounds_least :
      play.skill.max_score * correct_prefix play.actions play.challenge
      < (score + 1) * length play.challenge
  pub bounded : score ≤ play.skill.max_score

floor_div-inv : (a b : ℕ) {q : ℕ} → floor_div a b ≡ ok q → (0 < b) × (q ≡ a / b)
floor_div-inv a b e = (ground arith, ground arith)

score_play-inv :
    (elapsed : ℕ) (play : SkillPlay) {r : Fields}
    → score_play elapsed play ≡ ok r
    → (score : ℕ) × (0 < length play.challenge)
      × (score
          ≡ play.skill.max_score
            * correct_prefix play.actions play.challenge
            / length play.challenge)
      × (r
          ≡ skill_result score
              (correct_prefix play.actions play.challenge)
              (length play.actions)
              elapsed)
unfolding score_play
score_play-inv elapsed play {r} e =
    let divided =
      >>=-eq-ok
        (floor_div (play.skill.max_score * correct_prefix play.actions play.challenge)
          (length play.challenge))
        (λ score. ok (
          skill_result score (correct_prefix play.actions play.challenge) (length play.actions)
            elapsed))
        e in
    let quotient =
      floor_div-inv (play.skill.max_score * correct_prefix play.actions play.challenge)
        (length play.challenge) divided.1 in
    (divided.0, quotient.0, quotient.1, sym (ok_inj divided.2))

quotient-IsScore :
    (play : SkillPlay) (score : ℕ)
    → 0 < length play.challenge
    → score
      ≡ play.skill.max_score * correct_prefix play.actions play.challenge / length play.challenge
    → IsScore play score
quotient-IsScore play score pos e =
    let product = play.skill.max_score * correct_prefix play.actions play.challenge in
    let prefix = correct_prefix-IsCommonPrefix play.actions play.challenge in
    record {
      challenged = pos;
      counts = prefix;
      rounds_down = rw e (div-mul-le_self product (length play.challenge));
      rounds_least = rw e ((div-lt_iff_lt-mul pos).0 (omega arith));
      bounded = rw e (div-le_of_le-mul (length play.challenge) (grind (arith, prefix.1)));
    }

get-score :
    (score correct submitted elapsed : ℕ)
    → get (codes "score") (skill_result score correct submitted elapsed) ≡ number score
get-score score correct submitted elapsed = get_first (codes "score") (number score) _

skill_play-config :
    (s : GameSession) (config : GameConfigVersion) (intent : PlayIntent) {play : SkillPlay}
    → skill_play s config intent ≡ ok play
    → validated_config config ≡ ok (skill_check_config play.skill)
unfolding skill_play
skill_play-config s config intent {play} e = ground arith

skill_value-eq :
    (config : GameConfigVersion) (outcome : Outcome) (skill : SkillCheckConfig) (score : ℕ)
    → validated_config config ≡ ok (skill_check_config skill)
    → get (codes "score") outcome.result ≡ number score
    → score ≤ skill.max_score
    → skill_value config outcome ≡ ok score
unfolding skill_value
skill_value-eq config outcome skill score valid found fits = rw (valid, found) (ground arith)

-- An accepted skill-check play was validated, is scored by its longest correct prefix, and the rules
-- later read back exactly that score as its reward and as its leaderboard score.
pub evaluate_skill_sound :
    (milliseconds : ℕ → ℕ) (now : ℕ) (s : GameSession) (config : GameConfigVersion)
    (intent : PlayIntent) {r : Fields} (outcome : Outcome)
    → evaluate_skill milliseconds now s config intent ≡ ok r
    → outcome.result ≡ r
    → (play : SkillPlay) × (score : ℕ) × (skill_play s config intent ≡ ok play)
      × IsScore play score
      × (skill_value config outcome ≡ ok score)
unfolding evaluate_skill
evaluate_skill_sound milliseconds now s config intent outcome e same =
    let validated =
      >>=-eq-ok (skill_play s config intent) (score_play (milliseconds (now - s.created_at))) e in
    let scored = score_play-inv (milliseconds (now - s.created_at)) validated.0 validated.2 in
    let is_score = quotient-IsScore validated.0 scored.0 scored.1 scored.2 in
    (
      validated.0,
      scored.0,
      validated.1,
      is_score,
      skill_value-eq config outcome validated.0.skill scored.0
          (skill_play-config s config intent validated.1)
          (ap (get (codes "score")) (same ∙ scored.3) ∙ get-score scored.0 _ _ _) is_score.bounded,
    )
