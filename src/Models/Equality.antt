-- ===== src/Models/Equality.antt =====
-- `==` of the JSON values that the program compares. Two objects are equal when they have as many
-- entries, and every entry of the one has an equal one under its key in the other; the order of the
-- entries is nothing.
use python_rng_game_platform.Base.{
  ℕ, ◌≡◌, refl, Bool, true, false, ◌&&◌, Option, none, some, ◌==◌, ◌==ˢ◌, ==_refl, ==ˢ_refl, Text,
}
use python_rng_game_platform.Models.Json.{
  Json, null, boolean, number, negative, text, instant, array, object, Fields, end, field, lookup,
  size, optional_text, optional_number, optional_instant,
}

-- `True == 1` and `False == 0`.
abbrev pub as_number : Bool → ℕ
as_number true = 1
as_number false = 0

unfoldable mutual
  pub json_eq : Json → Json → Bool
  json_eq null null = true
  json_eq (boolean a) (boolean b) = as_number a == as_number b
  json_eq (boolean a) (number n) = as_number a == n
  json_eq (number n) (boolean b) = n == as_number b
  json_eq (number m) (number n) = m == n
  json_eq (negative m) (negative n) = m == n
  json_eq (text s) (text t) = s ==ˢ t
  json_eq (instant s) (instant t) = s == t
  json_eq (array xs) (array ys) = xs ==ˢ ys
  json_eq (object a) (object b) = size a == size b && fields_in a b
  json_eq _ _ = false

  -- Every entry of the first has an equal one in the second.
  pub fields_in : Fields → Fields → Bool
  fields_in end b = true
  fields_in (field k v rest) b =
      elim (lookup k b) [ none ↦ false | some w ↦ json_eq v w ] && fields_in rest b

abbrev pub fields_eq : Fields → Fields → Bool
fields_eq a b = size a == size b && fields_in a b

pub json_eq-text : (s : Text) → json_eq (text s) (text s) ≡ true
unfolding json_eq
json_eq-text s = ==ˢ_refl s

pub json_eq-number : (n : ℕ) → json_eq (number n) (number n) ≡ true
unfolding json_eq
json_eq-number n = ==_refl n

pub json_eq-optional_text : (o : Option Text) → json_eq (optional_text o) (optional_text o) ≡ true
unfolding json_eq
json_eq-optional_text none = refl
json_eq-optional_text (some s) = ==ˢ_refl s

pub json_eq-optional_number :
    (o : Option ℕ) → json_eq (optional_number o) (optional_number o) ≡ true
unfolding json_eq
json_eq-optional_number none = refl
json_eq-optional_number (some n) = ==_refl n

pub json_eq-optional_instant :
    (o : Option ℕ) → json_eq (optional_instant o) (optional_instant o) ≡ true
unfolding json_eq
json_eq-optional_instant none = refl
json_eq-optional_instant (some t) = ==_refl t
