-- ===== src/Tests/Docs.antt =====
-- Runs of the search of the documentation.
use tacopie.DocSearch.Results
use tacopie.DocSearch.Box.Searching
use tacopie.Prelude.{
  ℕ, ◌≡◌, refl, Bool, true, false, List, [], ◌∷◌, Option, none, some, arith, if◌then◌else◌, ltb,
}
use tacopie.DocSearch.Results.{
  is_empty, strip_leading, nav_next, is_shown, nav_prev, row_shown, unset, shown, hidden, Row, Page,
}
use tacopie.DocSearch.Dom.{find_child_element, Elements, element, nil, cons}
use tacopie.DocSearch.Decode.{is_prefix-convert_to_id, is_prefix}
use tacopie.DocSearch.Box.{select_item_count, thrown, Box, Child}
use tacopie.DocSearch.Box.Menu.{on_search_select_key-thrown}
use tacopie.DocSearch.Ids.{convert_to_id}
use tacopie.DocSearch.Dom.Walk.{find_child_element-find_any, find_any}
use tacopie.DocSearch.Box.Searching.{index_char, index_of, results_page, on_search_select_key}

-- A platform on which all texts are in lower case already.
abbrev lower : List ℕ → List ℕ
lower text = text

-- Rows for `a` and `b c`, whose ids are `sr_a` and `sr_b_20c`.
abbrev row_a : Row
row_a = record { id = b's' ∷ b'r' ∷ b'_' ∷ b'a' ∷ []; display = unset }

abbrev row_b_c : Row
row_b_c = record {
  id = b's' ∷ b'r' ∷ b'_' ∷ b'b' ∷ b'_' ∷ b'2' ∷ b'0' ∷ b'c' ∷ [];
  display = unset;
}

abbrev page : Page
page = record {
  rows = row_a ∷ row_b_c ∷ [];
  searching = shown;
  no_matches = unset;
  last_match_count = 0;
}

abbrev name : List ℕ
name = b'b' ∷ b' ' ∷ b'c' ∷ []

-- The term ` b `.
abbrev after : Page
after = Results.search lower lower [] (b' ' ∷ b'b' ∷ b' ' ∷ []) page

is_prefix-convert_to_id_example :
    is_prefix (convert_to_id (b'b' ∷ b' ' ∷ [])) (convert_to_id name)
    ≡ is_prefix (b'b' ∷ b' ' ∷ []) name
is_prefix-convert_to_id_example =
    is_prefix-convert_to_id (b'b' ∷ b' ' ∷ []) name (omega arith, (omega arith, tt))
      (omega arith, (omega arith, (omega arith, tt)))

-- A text, and a div with a link and the div that is looked for.
abbrev tree : Elements
tree = cons (element false false 1 nil) (
    cons
      (element true false 2 (cons (element false false 3 nil) (cons (element true true 4 nil) nil)))
      nil)

find_child_element-find_any_example : find_child_element 4 tree ≡ find_any tree
unfolding tacopie.DocSearch.Dom.Walk.sizes
find_child_element-find_any_example = find_child_element-find_any 4 tree (omega arith)

abbrev children : List Child
children =
    record { is_select_item = true; marked = false }
    ∷ record { is_select_item = false; marked = false }
    ∷ record { is_select_item = true; marked = false }
    ∷ []

-- The box with the second item chosen and the text `b` in its field.
abbrev box : Box
box = record (Searching.create (b's' ∷ []) children) {
  search_index = 1;
  search_active = true;
  field_value = b'b' ∷ [];
}

abbrev sections : ℕ → Option (List ℕ)
sections n = if ltb n 2 then some (b'a' ∷ b'b' ∷ []) else none

abbrev above_one : List ℕ → Bool
above_one text = false

on_search_select_key-thrown_example :
    (left_box : Box) × (on_search_select_key lower above_one sections 40 box ≡ thrown left_box)
    × (left_box.search_index ≡ select_item_count children)
unfolding select_item_count Searching.create
on_search_select_key-thrown_example =
    on_search_select_key-thrown lower above_one sections box refl refl refl refl
