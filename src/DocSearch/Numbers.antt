-- ===== src/DocSearch/Numbers.antt =====
-- A number as JavaScript writes it into a text, as docs/html/search/search.js does for the ids of the
-- items on a page of results.
use tacopie.Prelude.{
  ℕ, zero, suc, ◌+◌, ◌-◌, ◌*◌, ◌<◌, ◌≡◌, refl, ap, sym, ◌∙◌, true, false, ◌&&◌, List, [], ◌∷◌, ◌++◌,
  if◌then◌else◌, ltb, ◌/◌, ◌%◌, ◌==◌, All, arith, Bool-cases, inl, inr, ==_iff,
}
use tacopie.DocSearch.Box.{list_eq}

-- The digits of a number, of at most as many as the fuel.
unfoldable decimal_digits : ℕ → ℕ → List ℕ
decimal_digits zero n = []
decimal_digits (suc fuel) n =
    let front = decimal_digits fuel (n / 10) in
    if ltb n 10 then (b'0' + n) ∷ [] else front ++ (b'0' + n % 10) ∷ []

-- A number has no more digits than it counts, and one.
unfoldable pub decimal : ℕ → List ℕ
unfolding decimal_digits
decimal n = decimal_digits (suc n) n

number_from : ℕ → List ℕ → ℕ
number_from acc [] = acc
number_from acc (c ∷ cs) = number_from (acc * 10 + (c - b'0')) cs

abbrev IsDigit : ℕ → Type 0
IsDigit c = (b'0' < suc c) × (c < 58)

number_from-back :
    (acc : ℕ) (cs : List ℕ) (c : ℕ)
    → number_from acc (cs ++ c ∷ []) ≡ number_from acc cs * 10 + (c - b'0')
unfolding number_from
number_from-back acc [] c = refl
number_from-back acc (d ∷ cs) c = number_from-back (acc * 10 + (d - b'0')) cs c

number_from-decimal_digits : (fuel n : ℕ) → n < fuel → number_from 0 (decimal_digits fuel n) ≡ n
unfolding number_from decimal_digits
number_from-decimal_digits zero n h = absurd (omega arith)
number_from-decimal_digits (suc fuel) n h = elim (Bool-cases (ltb n 10)) [
  | inl small ↦ ground (arith, small)
  | inr large ↦ ground (
    arith,
    large,
    number_from-back 0 (decimal_digits fuel (n / 10)) (b'0' + n % 10),
    number_from-decimal_digits fuel (n / 10),
  )
]

IsDigit-back : (xs : List ℕ) (x : ℕ) → All IsDigit xs → IsDigit x → All IsDigit (xs ++ x ∷ [])
IsDigit-back [] x all here = (here, tt)
IsDigit-back (y ∷ xs) x (first, rest) here = (first, IsDigit-back xs x rest here)

decimal_digits-IsDigit : (fuel n : ℕ) → All IsDigit (decimal_digits fuel n)
unfolding decimal_digits
decimal_digits-IsDigit zero n = tt
decimal_digits-IsDigit (suc fuel) n = elim (Bool-cases (ltb n 10)) [
  | inl small ↦ rw small ((ground (arith, small), ground (arith, small)), tt)
  | inr large ↦ rw large (
      IsDigit-back (decimal_digits fuel (n / 10)) (b'0' + n % 10)
        (decimal_digits-IsDigit fuel (n / 10)) (omega arith, omega arith))
]

pub decimal-IsDigit : (n : ℕ) → All IsDigit (decimal n)
unfolding decimal
decimal-IsDigit n = decimal_digits-IsDigit (suc n) n

-- A number is read back from its digits.
number_from-decimal : (n : ℕ) → number_from 0 (decimal n) ≡ n
unfolding decimal
number_from-decimal n = number_from-decimal_digits (suc n) n (omega arith)

pub list_eq_self : (xs : List ℕ) → list_eq xs xs ≡ true
list_eq_self [] = refl
list_eq_self (x ∷ xs) = ground (arith, list_eq_self xs)

pub list_eq_lem : (xs ys : List ℕ) → list_eq xs ys ≡ true → xs ≡ ys
list_eq_lem [] [] h = refl
list_eq_lem [] (y ∷ ys) h = absurd (cc)
list_eq_lem (x ∷ xs) [] h = absurd (cc)
list_eq_lem (x ∷ xs) (y ∷ ys) h = ground (arith, list_eq_lem xs ys)

pub list_eq-append : (p xs ys : List ℕ) → list_eq (p ++ xs) (p ++ ys) ≡ list_eq xs ys
list_eq-append [] xs ys = refl
list_eq-append (c ∷ p) xs ys = ground (arith, list_eq-append p xs ys)

-- Two numbers have the same digits only if they are the same.
pub list_eq-decimal : (m n : ℕ) → list_eq (decimal m) (decimal n) ≡ (m == n)
list_eq-decimal m n = elim (Bool-cases (list_eq (decimal m) (decimal n))) [
  | inl same ↦
      same
      ∙ sym (
          (==_iff m n).1 (
            sym (number_from-decimal m)
            ∙ ap (number_from 0) (list_eq_lem (decimal m) (decimal n) same)
            ∙ number_from-decimal n))
  | inr differ ↦ elim (Bool-cases (m == n)) [
    | inl same ↦ rw ((==_iff m n).0 same) (list_eq_self (decimal n) ∙ sym ((==_iff n n).1 refl))
    | inr apart ↦ differ ∙ sym apart
  ]
]

-- Texts that go on with an underscore after digits are compared part by part.
pub list_eq-parts :
    (xs ys u v : List ℕ)
    → All IsDigit xs
    → All IsDigit ys
    → list_eq (xs ++ b'_' ∷ u) (ys ++ b'_' ∷ v) ≡ (list_eq xs ys && list_eq u v)
list_eq-parts [] [] u v x_digits y_digits = refl
list_eq-parts [] (y ∷ ys) u v x_digits (first, rest) = ground arith
list_eq-parts (x ∷ xs) [] u v (first, rest) y_digits = ground arith
list_eq-parts (x ∷ xs) (y ∷ ys) u v (x_first, x_rest) (y_first, y_rest) =
    ground (arith, list_eq-parts xs ys u v x_rest y_rest)

pub list_eq-whole_part : (xs ys v : List ℕ) → All IsDigit xs → list_eq xs (ys ++ b'_' ∷ v) ≡ false
list_eq-whole_part [] [] v digits = refl
list_eq-whole_part [] (y ∷ ys) v digits = refl
list_eq-whole_part (x ∷ xs) [] v (first, rest) = ground arith
list_eq-whole_part (x ∷ xs) (y ∷ ys) v (first, rest) =
    ground (arith, list_eq-whole_part xs ys v rest)

pub list_eq-part_whole : (xs ys u : List ℕ) → All IsDigit ys → list_eq (xs ++ b'_' ∷ u) ys ≡ false
list_eq-part_whole [] [] u digits = refl
list_eq-part_whole (x ∷ xs) [] u digits = refl
list_eq-part_whole [] (y ∷ ys) u (first, rest) = ground arith
list_eq-part_whole (x ∷ xs) (y ∷ ys) u (first, rest) =
    ground (arith, list_eq-part_whole xs ys u rest)
