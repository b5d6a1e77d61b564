-- ===== src/DocSearch/Decode.antt =====
-- Ids are read back: convertToId loses nothing, and keeps and reflects prefixes.
use tacopie.Prelude.{
  All, ℕ, suc, ◌≤◌, ◌<◌, ◌≡◌, refl, ap, ◌∙◌, inl, inr, Bool, true, false, ◌&&◌, List, [], ◌∷◌, ◌++◌,
  arith, Bool-cases, ◌/◌, ◌%◌, ◌==◌,
}
use tacopie.DocSearch.Ids.{to_hex, convert_char, convert_to_id, is_plain, hex_digit}

-- The list begins with the other: `substr(0, search.length) == search`.
abbrev pub is_prefix : List ℕ → List ℕ → Bool
is_prefix [] ys = true
is_prefix (x ∷ xs) [] = false
is_prefix (x ∷ xs) (y ∷ ys) = x == y && is_prefix xs ys

to_hex-one : (fuel n : ℕ) → n < 16 → to_hex (suc fuel) n ≡ hex_digit n ∷ []
unfolding to_hex
to_hex-one fuel n h = ground arith

to_hex-two :
    (fuel n : ℕ)
    → 16 ≤ n
    → n < 256
    → to_hex (suc (suc fuel)) n ≡ hex_digit (n / 16) ∷ hex_digit (n % 16) ∷ []
unfolding to_hex
to_hex-two fuel n low high = ground (arith, to_hex-one fuel (n / 16))

convert_char-escaped :
    (c : ℕ)
    → is_plain c ≡ false
    → c < 0x10000
    → convert_char c ≡ b'_' ∷ hex_digit (c / 16) ∷ hex_digit (c % 16) ∷ []
unfolding convert_char
convert_char-escaped c escaped unit = ground (arith, to_hex-one 3 c, to_hex-two 2 c)

convert_char-plain : (c : ℕ) → is_plain c ≡ true → convert_char c ≡ c ∷ []
unfolding convert_char
convert_char-plain c plain = rw (plain) refl

hex_digit-injective : (a b : ℕ) → a < 16 → b < 16 → hex_digit a ≡ hex_digit b → a ≡ b
hex_digit-injective a b low high same = ground arith

==-plain_escaped :
    (c d : ℕ) → is_plain c ≡ true → is_plain d ≡ false → ((c == d) ≡ false) × ((c == b'_') ≡ false)
==-plain_escaped c d plain escaped = (ground arith, ground arith)

==_sym : (a b : ℕ) → (a == b) ≡ (b == a)
==_sym a b = ground arith

==-hex_digit : (a b : ℕ) → a < 16 → b < 16 → (hex_digit a == hex_digit b) ≡ (a == b)
==-hex_digit a b low high = ground (arith, hex_digit-injective a b low high)

==-digits :
    (c d : ℕ) (rest : Bool)
    → ((c / 16 == d / 16) && ((c % 16 == d % 16) && rest)) ≡ (c == d && rest)
==-digits c d rest = ground arith

is_plain-unit : (c : ℕ) → is_plain c ≡ false → c < 0x10000 → c / 16 < 16
is_plain-unit c escaped unit = ground arith

-- Two lists that begin with the text of one code unit each are compared unit by unit.
is_prefix-convert_char :
    (c d : ℕ) (xs ys : List ℕ)
    → c < 0x10000
    → d < 0x10000
    → is_prefix (convert_char c ++ xs) (convert_char d ++ ys) ≡ (c == d && is_prefix xs ys)
is_prefix-convert_char c d xs ys c_unit d_unit = elim (Bool-cases (is_plain c)) [
  | inl c_plain ↦ elim (Bool-cases (is_plain d)) [
    | inl d_plain ↦ rw (convert_char-plain c c_plain, convert_char-plain d d_plain) refl
    | inr d_escaped ↦
        rw (convert_char-plain c c_plain, convert_char-escaped d d_escaped d_unit)
          (rw
            ((==-plain_escaped c d c_plain d_escaped).0, (==-plain_escaped c d c_plain d_escaped).1)
            refl)
  ]
  | inr c_escaped ↦ elim (Bool-cases (is_plain d)) [
    | inl d_plain ↦
        rw (convert_char-escaped c c_escaped c_unit, convert_char-plain d d_plain)
          (rw
            (
              ==_sym c d,
              ==_sym b'_' d,
              (==-plain_escaped d c d_plain c_escaped).0,
              (==-plain_escaped d c d_plain c_escaped).1,
            )
            refl)
    | inr d_escaped ↦
        rw (convert_char-escaped c c_escaped c_unit, convert_char-escaped d d_escaped d_unit)
          (rw
            (
              ==-hex_digit (c / 16) (d / 16) (is_plain-unit c c_escaped c_unit)
                  (is_plain-unit d d_escaped d_unit),
              ==-hex_digit (c % 16) (d % 16) (omega arith) (omega arith),
            )
            (==-digits c d (is_prefix xs ys)))
  ]
]

is_prefix-convert_char-nothing :
    (c : ℕ) (xs : List ℕ) → c < 0x10000 → is_prefix (convert_char c ++ xs) [] ≡ false
is_prefix-convert_char-nothing c xs unit = elim (Bool-cases (is_plain c)) [
  | inl plain ↦ rw (convert_char-plain c plain) refl
  | inr escaped ↦ rw (convert_char-escaped c escaped unit) refl
]

-- For texts of 16-bit code units, the id of one text begins with the id of another exactly when the
-- one text begins with the other.
pub is_prefix-convert_to_id :
    (search name : List ℕ)
    → All (λ c. c < 0x10000) search
    → All (λ c. c < 0x10000) name
    → is_prefix (convert_to_id search) (convert_to_id name) ≡ is_prefix search name
unfolding convert_to_id
is_prefix-convert_to_id [] name units name_units = refl
is_prefix-convert_to_id (c ∷ cs) [] (unit, units) name_units =
    is_prefix-convert_char-nothing c (convert_to_id cs) unit
is_prefix-convert_to_id (c ∷ cs) (d ∷ ds) (c_unit, units) (d_unit, name_units) =
    is_prefix-convert_char c d (convert_to_id cs) (convert_to_id ds) c_unit d_unit
    ∙ ap (λ b. c == d && b) (is_prefix-convert_to_id cs ds units name_units)
