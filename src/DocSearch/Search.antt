-- ===== src/DocSearch/Search.antt =====
-- What a search on a page of results shows (Search of docs/html/search/search.js).
use tacopie.Prelude.{
  &&_cases, leb, ℕ, zero, suc, ◌<◌, ◌≡◌, refl, sym, ap, ◌∙◌, inl, inr, Bool, true, false, ◌&&◌,
  List, [], ◌∷◌, some, arith, length, get_elem?, All, count, if◌then◌else◌, Bool-cases, ◌==◌,
}
use mathlib.Core.Option
use tacopie.DocSearch.Ids.{convert_to_id}
use tacopie.DocSearch.Decode.{is_prefix, is_prefix-convert_to_id}
use tacopie.DocSearch.Results.{
  Row, Page, shown, hidden, is_shown, strip_leading, strip_trailing, strip_mark, row_name, is_match,
  show_row, show_rows, match_count, search_term, search, row_shown, drop_first,
}

is_prefix-length : (xs ys : List ℕ) → is_prefix xs ys ≡ true → leb (length xs) (length ys) ≡ true
is_prefix-length [] ys h = ground arith
is_prefix-length (x ∷ xs) [] h = absurd (ground (arith, h))
is_prefix-length (x ∷ xs) (y ∷ ys) h =
    ground (arith, is_prefix-length xs ys ((&&_cases (x == y) (is_prefix xs ys) h).1))

-- The test of the lengths changes nothing.
is_prefix-leb :
    (xs ys : List ℕ) → (leb (length xs) (length ys) && is_prefix xs ys) ≡ is_prefix xs ys
is_prefix-leb xs ys = elim (Bool-cases (is_prefix xs ys)) [
  | inl h ↦ rw (h, is_prefix-length xs ys h) refl
  | inr h ↦ rw (h) (ground arith)
]

is_shown-if : (b : Bool) → is_shown (if b then shown else hidden) ≡ b
is_shown-if true = refl
is_shown-if false = refl

module _ (lower : List ℕ → List ℕ) where
  -- The term before it is written as an id.
  abbrev pub plain_term : List ℕ → List ℕ
  plain_term term = lower (strip_trailing (strip_leading term))

  row_name-mark :
      (row : Row) (name : List ℕ)
      → lower row.id ≡ b's' ∷ b'r' ∷ b'_' ∷ convert_to_id name
      → row_name lower row ≡ convert_to_id name
  unfolding strip_mark
  row_name-mark row name marked = rw (marked) refl

  get_elem?-show_rows :
      (term : List ℕ) (rows : List Row) (i : ℕ) (row : Row)
      → get_elem? rows i ≡ some row
      → get_elem? (show_rows lower term rows) i ≡ some (show_row lower term row)
  unfolding show_rows
  get_elem?-show_rows term [] i row at = absurd (ground (arith, at))
  get_elem?-show_rows term (r ∷ rows) zero row at = ap (Option.map (show_row lower term)) at
  get_elem?-show_rows term (r ∷ rows) (suc i) row at = get_elem?-show_rows term rows i row at

  count-show_rows :
      (term : List ℕ) (rows : List Row)
      → count (λ row. is_shown row.display) (show_rows lower term rows)
        ≡ match_count lower term rows
  unfolding show_rows match_count
  count-show_rows term [] = refl
  count-show_rows term (row ∷ rows) =
      rw (count-show_rows term rows, is_shown-if (is_match lower term row)) refl

  -- The number of matches a search records is the number of rows it leaves shown, the page says that
  -- nothing was found exactly when that is none, and it no longer says that it is searching.
  pub search-last_match_count :
      (unescape : List ℕ → List ℕ) (query term : List ℕ) (page : Page)
      → let after = search lower unescape query term page in
        let matches = count (λ row. is_shown row.display) after.rows in
        (after.last_match_count ≡ matches)
        × (is_shown after.no_matches ≡ (matches == 0))
        × (after.searching ≡ hidden)
  unfolding search
  search-last_match_count unescape query [] page = (
    sym (count-show_rows (search_term lower (unescape (drop_first query))) page.rows),
    is_shown-if (match_count lower (search_term lower (unescape (drop_first query))) page.rows == 0)
        ∙ ap (λ n. n == 0)
            (sym (count-show_rows (search_term lower (unescape (drop_first query))) page.rows)),
    refl,
  )
  search-last_match_count unescape query (c ∷ cs) page = (
    sym (count-show_rows (search_term lower (c ∷ cs)) page.rows),
    is_shown-if (match_count lower (search_term lower (c ∷ cs)) page.rows == 0)
        ∙ ap (λ n. n == 0) (sym (count-show_rows (search_term lower (c ∷ cs)) page.rows)),
    refl,
  )

  -- A row whose id, in lower case, is `sr_` and the id of a name is shown after a search for a term that
  -- is not empty exactly when the name begins with the term, stripped of outer spaces and in lower
  -- case; the texts have 16-bit code units.
  pub search-shown :
      (unescape : List ℕ → List ℕ) (query : List ℕ) (c : ℕ) (cs : List ℕ) (page : Page) (i : ℕ)
      (row : Row) (name : List ℕ)
      → get_elem? page.rows i ≡ some row
      → lower row.id ≡ b's' ∷ b'r' ∷ b'_' ∷ convert_to_id name
      → All (λ d. d < 0x10000) (plain_term (c ∷ cs))
      → All (λ d. d < 0x10000) name
      → row_shown (get_elem? ((search lower unescape query (c ∷ cs) page).rows) i)
        ≡ is_prefix (plain_term (c ∷ cs)) name
  unfolding search
  search-shown unescape query c cs page i row name at marked term_units name_units =
      rw (get_elem?-show_rows (search_term lower (c ∷ cs)) page.rows i row at) (
        is_shown-if (is_match lower (search_term lower (c ∷ cs)) row)
        ∙ is_prefix-leb (convert_to_id (plain_term (c ∷ cs))) (row_name lower row)
        ∙ ap (is_prefix (convert_to_id (plain_term (c ∷ cs)))) (row_name-mark row name marked)
        ∙ is_prefix-convert_to_id (plain_term (c ∷ cs)) name term_units name_units)
