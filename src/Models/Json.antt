-- ===== src/Models/Json.antt =====
-- The JSON values that the program stores in its JSONB columns.
use python_rng_game_platform.Base.{
  ℕ, suc, Bool, List, Option, none, some, ◌≡◌, refl, false, ◌==ˢ◌, ==ˢ_refl, if◌then◌else◌, Text,
}

-- `negative n` is the integer -(n + 1), and `instant t` the ISO text of a time.
mutual
  pub data Json : Type 0 where
    null : Json
    boolean : Bool → Json
    number : ℕ → Json
    negative : ℕ → Json
    text : Text → Json
    instant : ℕ → Json
    array : List ℕ → Json
    object : Fields → Json

  pub data Fields : Type 0 where
    end : Fields
    field : Text → Json → Fields → Fields

-- `d.get(key)`; `null` and a missing key are both `None` to the program.
unfoldable pub get : Text → Fields → Json
get key end = null
get key (field k v rest) = if k ==ˢ key then v else get key rest

-- `d[key]`, if the key is there.
abbrev pub lookup : Text → Fields → Option Json
lookup key end = none
lookup key (field k v rest) = if k ==ˢ key then some v else lookup key rest

abbrev pub size : Fields → ℕ
size end = 0
size (field k v rest) = suc (size rest)

-- A text or `None`.
abbrev pub optional_text : Option Text → Json
optional_text none = null
optional_text (some t) = text t

abbrev pub optional_number : Option ℕ → Json
optional_number none = null
optional_number (some n) = number n

abbrev pub optional_instant : Option ℕ → Json
optional_instant none = null
optional_instant (some t) = instant t

pub get_first : (key : Text) (v : Json) (rest : Fields) → get key (field key v rest) ≡ v
unfolding get
get_first key v rest = rw (==ˢ_refl key) refl

pub get_later :
    (key k : Text) (v : Json) (rest : Fields)
    → (k ==ˢ key) ≡ false
    → get key (field k v rest) ≡ get key rest
unfolding get
get_later key k v rest h = rw h refl
