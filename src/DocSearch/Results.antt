-- ===== src/DocSearch/Results.antt =====
-- docs/html/search/search.js, SearchResults: the search on a page of results, the keys on it and the
-- moves between its items. A text is the list of its code units. Of the page's divs Search looks
-- only at those of the class SRResult, which are the rows here; row i holds the element `Item` i,
-- as createResults makes them. `lower` and `unescape` stand for the platform's toLowerCase and unescape.
use tacopie.Prelude.{
  get_elem?, leb, ℕ, zero, suc, ◌+◌, Bool, true, false, not, ◌&&◌, List, [], ◌∷◌, Option, none,
  some, length, if◌then◌else◌, is_set, to_nat, ◌==◌,
}
use tacopie.DocSearch.Ids.{convert_to_id}
use tacopie.DocSearch.Decode.{is_prefix}

-- `style.display`, as far as the code tells the values apart.
pub data Display : Type 0 where
  unset : Display
  shown : Display
  hidden : Display

abbrev pub is_shown : Display → Bool
is_shown unset = false
is_shown shown = true
is_shown hidden = false

pub record Row : Type 0 where
  pub id : List ℕ
  pub display : Display

pub record Page : Type 0 where
  pub rows : List Row
  pub searching : Display
  pub no_matches : Display
  pub last_match_count : ℕ

-- replace(/^ +/, "")
unfoldable pub strip_leading : List ℕ → List ℕ
strip_leading [] = []
strip_leading (c ∷ cs) = let rest = strip_leading cs in if c == b' ' then rest else c ∷ cs

abbrev pub is_empty : List ℕ → Bool
is_empty [] = true
is_empty (c ∷ cs) = false

-- replace(/ +$/, "")
unfoldable pub strip_trailing : List ℕ → List ℕ
strip_trailing [] = []
strip_trailing (c ∷ cs) =
    let rest = strip_trailing cs in if c == b' ' && is_empty rest then [] else c ∷ rest

-- What follows `\d*_` at the head of a text.
abbrev pub after_number : List ℕ → Option (List ℕ)
after_number [] = none
after_number (c ∷ cs) =
    let rest = after_number cs in
    if leb b'0' c && leb c b'9' then rest else if c == b'_' then some cs else none

abbrev pub or_all : List ℕ → Option (List ℕ) → List ℕ
or_all name none = name
or_all name (some rest) = rest

-- replace(/^sr\d*_/, '')
unfoldable pub strip_mark : List ℕ → List ℕ
strip_mark [] = []
strip_mark (c ∷ []) = c ∷ []
strip_mark (c ∷ d ∷ cs) =
    or_all (c ∷ d ∷ cs) (if c == b's' && d == b'r' then after_number cs else none)

abbrev pub drop_first : List ℕ → List ℕ
drop_first [] = []
drop_first (c ∷ cs) = cs

module _ (lower : List ℕ → List ℕ) where
  -- The term as it is compared: stripped of outer spaces, in lower case, as an id.
  abbrev pub search_term : List ℕ → List ℕ
  search_term search = convert_to_id (lower (strip_trailing (strip_leading search)))

  -- The name a row is found by.
  abbrev pub row_name : Row → List ℕ
  row_name row = strip_mark (lower row.id)

  abbrev pub is_match : List ℕ → Row → Bool
  is_match search row =
      leb (length search) (length (row_name row)) && is_prefix search (row_name row)

  abbrev pub show_row : List ℕ → Row → Row
  show_row search row = record row { display = if is_match search row then shown else hidden }

  unfoldable pub show_rows : List ℕ → List Row → List Row
  show_rows search [] = []
  show_rows search (row ∷ rows) = show_row search row ∷ show_rows search rows

  unfoldable pub match_count : List ℕ → List Row → ℕ
  match_count search [] = 0
  match_count search (row ∷ rows) = to_nat (is_match search row) + match_count search rows

  abbrev pub apply_search : List ℕ → Page → Page
  apply_search term page = record {
    rows = show_rows term page.rows;
    searching = hidden;
    no_matches = if match_count term page.rows == 0 then shown else hidden;
    last_match_count = match_count term page.rows;
  }

  -- `Search`; with no term it is the query of the page's address, without its `?`.
  unfoldable pub search : (List ℕ → List ℕ) → List ℕ → List ℕ → Page → Page
  search unescape query [] page = apply_search (search_term (unescape (drop_first query))) page
  search unescape query (c ∷ cs) page = apply_search (search_term (c ∷ cs)) page

-- `NavNext`: the first item from the index on whose row is shown, over the rows from that index.
-- The search stops at the first missing item, and then nothing is found.
unfoldable pub next_in : List Row → ℕ → Option ℕ
next_in [] index = none
next_in (row ∷ rows) index =
    let rest = next_in rows (suc index) in if is_shown row.display then some index else rest

abbrev pub drop {ℓ} : {A : Type ℓ} → ℕ → List A → List A
drop zero xs = xs
drop (suc n) [] = []
drop (suc n) (x ∷ xs) = drop n xs

unfoldable pub nav_next : List Row → ℕ → Option ℕ
nav_next rows index = next_in (drop index rows) index

abbrev pub row_shown : Option Row → Bool
row_shown none = false
row_shown (some row) = is_shown row.display

-- `NavPrev` of the index one below the argument: the source counts down to -1, where no item is.
unfoldable pub nav_prev : List Row → ℕ → Option ℕ
nav_prev rows zero = none
nav_prev rows (suc index) =
    let rest = nav_prev rows index in
    if is_set (get_elem? rows index)
    then if row_shown (get_elem? rows index) then some index else rest
    else none

-- The keys held: `lastKey` and `repeatOn`.
pub record Keys : Type 0 where
  pub last_key : ℕ
  pub repeat_on : Bool

pub data KeyEvent : Type 0 where
  keydown : ℕ → KeyEvent
  keypress : KeyEvent
  keyup : KeyEvent

-- `ProcessKeys`: the keys held, and whether the event is acted on.
unfoldable pub process_keys : KeyEvent → Keys → Keys × Bool
process_keys (keydown code) keys = (record { last_key = code; repeat_on = false }, not (code == 0))
process_keys keypress keys =
    if keys.repeat_on
    then (keys, not (keys.last_key == 0))
    else (record keys { repeat_on = not (keys.last_key == 0) }, false)
process_keys keyup keys = (record { last_key = 0; repeat_on = false }, false)
