-- ===== src/DocSearch/Ids.antt =====
-- docs/html/search/search.js, convertToId: the text of an id from a search term. `Decode` has the
-- proofs that it can be read back.
use tacopie.Prelude.{
  ℕ, zero, suc, ◌+◌, ◌-◌, Bool, ◌&&◌, ◌||◌, List, [], ◌∷◌, ◌++◌, if◌then◌else◌, ltb, leb, ◌/◌, ◌%◌,
}

-- The characters that stand for themselves: [a-z0-9\u0080-\uFFFF].
abbrev pub is_plain : ℕ → Bool
is_plain c = leb b'a' c && leb c b'z' || leb b'0' c && leb c b'9' || leb 0x80 c && leb c 0xFFFF

abbrev pub hex_digit : ℕ → ℕ
hex_digit d = if ltb d 10 then b'0' + d else b'a' + (d - 10)

-- toString(16), of at most as many digits as the fuel.
unfoldable pub to_hex : ℕ → ℕ → List ℕ
to_hex zero n = []
to_hex (suc fuel) n =
    let front = to_hex fuel (n / 16) in
    if ltb n 16 then hex_digit n ∷ [] else front ++ hex_digit (n % 16) ∷ []

-- A code unit has at most four digits.
abbrev pub hex_fuel : ℕ
hex_fuel = 4

unfoldable pub convert_char : ℕ → List ℕ
unfolding to_hex
convert_char c =
    if is_plain c
    then c ∷ []
    else if ltb c 16
    then b'_' ∷ b'0' ∷ to_hex hex_fuel c
    else b'_' ∷ to_hex hex_fuel c

unfoldable pub convert_to_id : List ℕ → List ℕ
unfolding convert_char
convert_to_id [] = []
convert_to_id (c ∷ cs) = convert_char c ++ convert_to_id cs
