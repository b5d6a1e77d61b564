-- ===== src/DocSearch/Box/Searching.antt =====
-- docs/html/search/search.js, SearchBox: Search and the handlers of the menu that run it, and the
-- fresh box. `sections` are the characters of the index's sections (indexSectionsWithContent).
use tacopie.Prelude.{
  take, leb, ℕ, suc, ◌+◌, ◌-◌, Bool, false, not, ◌&&◌, ◌||◌, List, [], ◌∷◌, Option, none, some,
  if◌then◌else◌, ltb, ◌==◌,
}
use tacopie.DocSearch.Results.{unset, shown, is_shown, strip_leading, is_empty}
use tacopie.DocSearch.Box.{
  Box, Ran, finished, thrown, and_then, Location, blank, index_page, no_match_page, Child,
  strip_spaces, select_item_count, select_item_set, close_selection_window, search_field, nothing,
}
use tacopie.DocSearch.Decode.{is_prefix}

unfoldable pub create : List ℕ → List Child → Box
create label children = record {
  key_timeout = false;
  hide_timeout = false;
  last_search_value = [];
  last_results_page = blank;
  search_index = 0;
  search_active = false;
  search_label = label;
  field_value = label;
  results_window = unset;
  close_button = unset;
  select_window = unset;
  panel_active = false;
  children = children;
  location = blank;
  results = none;
  focus = nothing;
}

-- `text.indexOf(part)`, where the text stands at an offset.
unfoldable pub index_of : List ℕ → ℕ → List ℕ → Option ℕ
index_of part at [] = if is_empty part then some at else none
index_of part at (c ∷ cs) =
    let rest = index_of part (suc at) cs in if is_prefix part (c ∷ cs) then some at else rest

-- charCodeAt(0), which is no number for an empty text.
abbrev pub first_unit : List ℕ → Option ℕ
first_unit [] = none
first_unit (c ∷ cs) = some c

abbrev pub is_high_surrogate : Option ℕ → Bool
is_high_surrogate none = false
is_high_surrogate (some c) = leb 0xD800 c && leb c 0xDBFF

abbrev pub show_results : Box → Box
show_results b =
    if is_shown b.results_window
    then b
    else record b { close_button = shown; results_window = shown }

-- The page for a place in the section's characters, with the term and without it.
abbrev pub results_page : ℕ → Option ℕ → List ℕ → Location
results_page section none term = no_match_page
results_page section (some at) term = index_page section at term

abbrev pub leave_menu : Box → Ran
leave_menu b = finished (record (close_selection_window b) { focus = search_field })

module _ (lower : List ℕ → List ℕ) (above_one : List ℕ → Bool)
    (sections : ℕ → Option (List ℕ)) where
  -- The text that is looked up in a section's characters.
  abbrev pub index_char : List ℕ → List ℕ
  index_char value =
      if is_high_surrogate (first_unit (lower value)) && above_one value
      then take 2 value
      else lower (take 1 value)

  abbrev pub open_page : Option ℕ → List ℕ → Box → Box
  open_page found value b =
      record (show_results (record b { location = results_page b.search_index found value })) {
        last_search_value = value;
        last_results_page = results_page b.search_index found [];
      }

  abbrev pub search_section : Option (List ℕ) → List ℕ → Box → Ran
  search_section none value b = thrown b
  search_section (some chars) value b =
      finished (open_page (index_of (index_char value) 0 chars) value b)

  unfoldable pub search : Box → Ran
  search b =
      search_section (sections b.search_index) (strip_leading b.field_value)
        (record b { key_timeout = false })

  unfoldable pub on_select_item : ℕ → Box → Ran
  on_select_item id b =
      let chosen = record b { search_index = id; children = select_item_set id 0 b.children } in
      if not (is_empty (strip_spaces b.field_value)) && b.search_active
      then search chosen
      else finished chosen

  unfoldable pub on_search_select_key : ℕ → Box → Ran
  on_search_select_key code b =
      if code == 40 && ltb b.search_index (select_item_count b.children)
      then on_select_item (b.search_index + 1) b
      else if code == 38 && ltb 0 b.search_index
      then on_select_item (b.search_index - 1) b
      else if code == 13 || code == 27
      then and_then (on_select_item b.search_index b) leave_menu
      else finished b

  -- The timer that `OnSearchFieldChange` sets runs out.
  unfoldable pub key_timer : Box → Ran
  key_timer b = if b.key_timeout then search b else finished b
