-- ===== src/Tests/Panel.antt =====
-- Runs on the page of results of the documentation.
use tacopie.DocSearch.Results
use tacopie.DocSearch.Box.Searching
use tacopie.Prelude.{
  get_elem?, ◌==◌, if◌then◌else◌, ℕ, ◌-◌, ◌≡◌, refl, true, false, List, [], ◌∷◌, Option, none, some,
  arith,
}
use tacopie.DocSearch.Results.{
  is_shown, Display, row_shown, unset, shown, hidden, Page, keydown, keypress, keyup, process_keys,
}
use tacopie.DocSearch.Box.{result_child}
use tacopie.DocSearch.Panel.{nav_move, Link, Datum, Entry, Panel, create_results, rows_of}
use tacopie.DocSearch.Build.{item_text, child_text, item_link, child_link, create_nodes}
use tacopie.DocSearch.Build.Found.{find_in}
use tacopie.DocSearch.Build.Items.{find-create_nodes}
use tacopie.Prelude.{is_set}
use tacopie.DocSearch.Panel.Turns.{nav_move-astray}

-- A platform that lets `S` and `R` be lower, and has nothing else to change.
abbrev lower_unit : ℕ → ℕ
lower_unit c = if c == b'S' then b's' else if c == b'R' then b'r' else c

abbrev lower : List ℕ → List ℕ
lower [] = []
lower (c ∷ cs) = lower_unit c ∷ lower cs

abbrev link : Link
link = record { href = b'x' ∷ []; in_parent = true; scope = [] }

abbrev data_ab : List Datum
data_ab =
    record { id = b'a' ∷ []; name = b'A' ∷ []; links = link ∷ [] }
    ∷ record { id = b'b' ∷ []; name = b'B' ∷ []; links = link ∷ link ∷ link ∷ [] }
    ∷ []

abbrev page : Page
page = record {
  rows = rows_of (create_results data_ab);
  searching = shown;
  no_matches = unset;
  last_match_count = 0;
}

-- Three rows: the first and the last are shown, and the first two have three children each.
abbrev entry : Display → Option Display → Entry
entry d children = record {
  row = record { id = if is_shown d then b'a' ∷ [] else b'b' ∷ []; display = d };
  name = [];
  links = link ∷ link ∷ link ∷ [];
  children = children;
}

abbrev panel : Panel
panel = record {
  entries = entry shown (some shown) ∷ entry hidden (some unset) ∷ entry shown none ∷ [];
  keys = record { last_key = 0; repeat_on = false };
  box = Searching.create [] [];
}

nav_move-astray_example :
    ((nav_move 38 2 panel).box.focus ≡ result_child (2 - 1) 2)
    × (row_shown (get_elem? (rows_of panel.entries) (2 - 1)) ≡ false)
    × (row_shown (get_elem? (rows_of panel.entries) 0) ≡ true)
unfolding Results.nav_prev rows_of
nav_move-astray_example = nav_move-astray 2 0 2 panel (omega arith) refl (omega arith) refl refl

-- The second child of the second entry.
find-create_nodes_example :
    (find_in (item_text 1) (create_nodes data_ab)
      ≡ some (
          item_link 1
            (record { id = b'b' ∷ []; name = b'B' ∷ []; links = link ∷ link ∷ link ∷ [] })))
    × (find_in (child_text 1 1) (create_nodes data_ab) ≡ some (child_link 1 1 link))
    × (is_set (find_in (child_text 1 1) (create_nodes data_ab)) ≡ true)
unfolding create_results
find-create_nodes_example = find-create_nodes data_ab 1 1
