-- ===== src/DocIndex/Finding.antt =====
-- A search of docs/html/search/search.js for an entry of the index of this project finds it.
use tacopie.Prelude.{
  ℕ, ◌<◌, ◌≡◌, ap, ◌∙◌, Bool, true, List, [], ◌∷◌, ◌++◌, Option, none, some, codes, get_elem?, take,
  All, arith, ltb, &&_cases, ==_iff,
}
use tacopie.DocSearch.Ids.{convert_to_id}
use tacopie.DocSearch.Decode.{is_prefix}
use tacopie.DocSearch.Box.{list_eq}
use tacopie.DocSearch.Numbers.{list_eq_lem}
use tacopie.DocSearch.Box.Searching.{index_of}
use tacopie.DocSearch.Results
use tacopie.DocSearch.Results.{Page, row_shown}
use tacopie.DocSearch.Search.{plain_term}
use tacopie.DocSearch.Panel.{Datum, create_results, rows_of}
use tacopie.DocSearch.Panel.Built.{search-create_results}
use tacopie.DocSearch.Start.{sections_with_content}
use tacopie.DocIndex.Complete.{
  index_pages, lower_ascii, is_ascii, name_of, is_at, is_good, entry-is_good,
}

is_at_lem : (o : Option ℕ) (k : ℕ) → is_at o k ≡ true → o ≡ some k
is_at_lem none k h = absurd (cc)
is_at_lem (some n) k h = ap some ((==_iff n k).0 h)

is_ascii-units : (t : List ℕ) → is_ascii t ≡ true → All (λ u. u < 0x10000) t
is_ascii-units [] h = tt
is_ascii-units (c ∷ t) h =
    let both = &&_cases (ltb c 128) (is_ascii t) h in
    (ground (arith, both.0), is_ascii-units t both.1)

-- A platform's toLowerCase, on texts of ASCII.
abbrev pub LowersAscii : (List ℕ → List ℕ) → Type 0
LowersAscii lower = (t : List ℕ) → is_ascii t ≡ true → lower t ≡ lower_ascii t

-- For each entry on each page of the index of this project: the first character of its name, in lower
-- case, stands in its section's characters at the number of its page, so that a search for the name
-- opens the page; and on the page that createResults builds, a search for a term that is not empty
-- shows its row exactly when the name begins with the term, stripped and in lower case. toLowerCase
-- does its duty on ASCII, and the term has 16-bit code units.
pub search-index_pages :
    (lower unescape : List ℕ → List ℕ) (query : List ℕ) (c : ℕ) (cs : List ℕ) (p : Page) (s k i : ℕ)
    (chars : List ℕ) (pages : List (List Datum)) (page : List Datum) (d : Datum)
    → LowersAscii lower
    → get_elem? sections_with_content s ≡ some chars
    → get_elem? index_pages s ≡ some pages
    → get_elem? pages k ≡ some page
    → get_elem? page i ≡ some d
    → p.rows ≡ rows_of (create_results page)
    → All (λ u. u < 0x10000) (plain_term lower (c ∷ cs))
    → (index_of (take 1 (name_of d)) 0 chars ≡ some k)
      × (row_shown (get_elem? ((Results.search lower unescape query (c ∷ cs) p).rows) i)
          ≡ is_prefix (plain_term lower (c ∷ cs)) (name_of d))
unfolding is_good
search-index_pages lower unescape query c cs p s k i chars pages page d lowers at_chars at_pages
      at_page at built units =
    let (found_page, same_id, ascii_id, ascii_name) = parts in
    (
      is_at_lem _ k found_page,
      search-create_results lower unescape query c cs p page i d (name_of d) built at
          (lowers (codes "SR_" ++ d.id) ascii_id ∙ list_eq_lem _ _ same_id) units
          (is_ascii-units (name_of d) ascii_name),
    )
  where
    found_at : Bool
    found_at = is_at (index_of (take 1 (name_of d)) 0 chars) k

    same_ids : Bool
    same_ids =
        list_eq (lower_ascii (codes "SR_" ++ d.id)) (codes "sr_" ++ convert_to_id (name_of d))

    parts :
        (found_at ≡ true)
        × (same_ids ≡ true)
        × (is_ascii (codes "SR_" ++ d.id) ≡ true)
        × (is_ascii (name_of d) ≡ true)
    parts = ground (arith, entry-is_good s k i chars pages page d at_chars at_pages at_page at)
