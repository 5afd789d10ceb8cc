-- ===== src/Rng/Encoding.antt =====
-- The renderings that app/rng.py takes from Python: decimal numbers, lowercase hexadecimal bytes,
-- big-endian numbers, and the 36 characters of a UUID.
pub mod Laws
use python_rng_game_platform.Base.{
  ℕ, zero, suc, ◌+◌, ◌-◌, ◌*◌, ◌/◌, ◌%◌, Bool, true, false, ◌&&◌, ◌||◌, List, [], ◌∷◌, ◌++◌, Option,
  none, some, ltb, leb, ◌==◌, if◌then◌else◌, Bytes, Text, length, all, take, drop,
}

-- The decimal digits of a number, least significant last; each round divides by ten.
unfoldable pub decimal_rounds : ℕ → ℕ → Text
decimal_rounds zero n = []
decimal_rounds (suc f) n =
    let rest = decimal_rounds f (n / 10) ++ (b'0' + n % 10) ∷ [] in
    if ltb n 10 then (b'0' + n) ∷ [] else rest

-- f"{n}" of a natural number; `n + 1` rounds are more than it takes.
unfoldable pub decimal : ℕ → Text
decimal n = decimal_rounds (suc n) n

-- One lowercase hexadecimal digit.
unfoldable pub hex_digit : ℕ → ℕ
hex_digit d = if ltb d 10 then b'0' + d else b'a' + (d - 10)

-- `bytes.hex()`
unfoldable pub hex : Bytes → Text
hex [] = []
hex (b ∷ bs) = hex_digit (b / 16) ∷ hex_digit (b % 16) ∷ hex bs

-- `character in "0123456789abcdef"`
unfoldable pub is_hex_digit : ℕ → Bool
is_hex_digit c = leb b'0' c && leb c b'9' || leb b'a' c && leb c b'f'

unfoldable pub hex_value : ℕ → ℕ
hex_value c = if leb c b'9' then c - b'0' else c - b'a' + 10

-- `bytes.fromhex(text)` of a text of lowercase digits, an even number of them.
unfoldable pub from_hex : Text → Bytes
from_hex [] = []
from_hex (c ∷ []) = []
from_hex (c ∷ d ∷ cs) = (hex_value c * 16 + hex_value d) ∷ from_hex cs

unfoldable pub from_big_endian : ℕ → Bytes → ℕ
from_big_endian acc [] = acc
from_big_endian acc (b ∷ bs) = from_big_endian (acc * 256 + b) bs

-- `int.from_bytes(digest, "big")`
unfoldable pub int_from_bytes : Bytes → ℕ
unfolding from_big_endian
int_from_bytes bs = from_big_endian 0 bs

-- `n.to_bytes(width, "big")`, for n below 256 ^ width.
unfoldable pub to_bytes : ℕ → ℕ → Bytes
to_bytes zero n = []
to_bytes (suc w) n = to_bytes w (n / 256) ++ (n % 256) ∷ []

-- A UUID is its 128-bit number, which orders UUIDs as the database does. `str(uuid)` writes its
-- 32 hexadecimal digits in groups of 8, 4, 4, 4 and 12.
-- A group of `n` characters, a dash, and the rest.
unfoldable pub group : ℕ → (Text → Text) → Text → Text
group n rest h = take n h ++ b'-' ∷ rest (drop n h)

unfoldable pub dashed : Text → Text
unfolding group
dashed = group 8 (group 4 (group 4 (group 4 (λ h. h))))

unfoldable pub uuid_str : ℕ → Text
unfolding dashed
uuid_str u = dashed (hex (to_bytes 16 u))
