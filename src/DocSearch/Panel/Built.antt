-- ===== src/DocSearch/Panel/Built.antt =====
-- The search over the page that createResults of docs/html/search/search.js builds.
use tacopie.Prelude.{ℕ, zero, suc, ◌<◌, ◌≡◌, ap, ◌∙◌, List, [], ◌∷◌, some, arith, get_elem?, All}
use mathlib.Core.Option
use tacopie.DocSearch.Results
use tacopie.DocSearch.Results.{Page, row_shown}
use tacopie.DocSearch.Search.{plain_term, search-shown}
use tacopie.DocSearch.Ids.{convert_to_id}
use tacopie.DocSearch.Decode.{is_prefix}
use tacopie.DocSearch.Panel.{Datum, create_entry, create_results, rows_of}

get_elem?-create_results :
    (ds : List Datum) (i : ℕ) (d : Datum)
    → get_elem? ds i ≡ some d
    → get_elem? (rows_of (create_results ds)) i ≡ some ((create_entry d).row)
unfolding create_results rows_of
get_elem?-create_results [] i d at = absurd (ground (arith, at))
get_elem?-create_results (x ∷ ds) zero d at = ap (Option.map (λ y. (create_entry y).row)) at
get_elem?-create_results (x ∷ ds) (suc i) d at = get_elem?-create_results ds i d at

-- On a page built from the data of the index, the row of an entry whose id, marked and in lower case,
-- is `sr_` and the id of a name is shown after a search for a term that is not empty exactly when the
-- name begins with the term, stripped and in lower case; the texts have 16-bit code units.
pub search-create_results :
    (lower unescape : List ℕ → List ℕ) (query : List ℕ) (c : ℕ) (cs : List ℕ) (page : Page)
    (ds : List Datum) (i : ℕ) (d : Datum) (name : List ℕ)
    → page.rows ≡ rows_of (create_results ds)
    → get_elem? ds i ≡ some d
    → lower (b'S' ∷ b'R' ∷ b'_' ∷ d.id) ≡ b's' ∷ b'r' ∷ b'_' ∷ convert_to_id name
    → All (λ u. u < 0x10000) (plain_term lower (c ∷ cs))
    → All (λ u. u < 0x10000) name
    → row_shown (get_elem? ((Results.search lower unescape query (c ∷ cs) page).rows) i)
      ≡ is_prefix (plain_term lower (c ∷ cs)) name
unfolding create_entry
search-create_results lower unescape query c cs page ds i d name built at marked term_units
      name_units =
    search-shown lower unescape query c cs page i ((create_entry d).row) name
      (ap (λ rows. get_elem? rows i) built ∙ get_elem?-create_results ds i d at) marked term_units
      name_units
