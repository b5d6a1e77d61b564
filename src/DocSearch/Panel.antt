-- ===== src/DocSearch/Panel.antt =====
-- docs/html/search/search.js: the page of results as createResults builds it, and what the keys do
-- there (SearchResults.Nav, NavChild and Toggle). The handlers stand on the items themselves, so
-- that the item of a handler is there; on one that is not they change nothing here.
pub mod Built
pub mod Turns
use tacopie.Prelude.{
  ℕ, zero, suc, ◌+◌, ◌-◌, refl, Bool, true, false, ◌&&◌, List, [], ◌∷◌, Option, none, some, length,
  get_elem?, if◌then◌else◌, is_set, ltb, ◌==◌,
}
use tacopie.DocSearch.Results.{
  Row, Display, unset, shown, hidden, is_shown, Keys, KeyEvent, process_keys, nav_next, nav_prev,
}
use tacopie.DocSearch.Box.{
  Box, Focus, result_item, result_child, search_field, close_results_window, list_eq,
}

-- A place that an entry leads to: its address, whether it opens in the parent, and its text.
pub record Link : Type 0 where
  pub href : List ℕ
  pub in_parent : Bool
  pub scope : List ℕ

-- An entry of `searchData`.
pub record Datum : Type 0 where
  pub id : List ℕ
  pub name : List ℕ
  pub links : List Link

-- What is built for it. A single link stands in the row itself; else the row has a div for its
-- children, one for each link, and `children` is how that div is displayed.
pub record Entry : Type 0 where
  pub row : Row
  pub name : List ℕ
  pub links : List Link
  pub children : Option Display

abbrev pub is_single : List Link → Bool
is_single (link ∷ []) = true
is_single _ = false

unfoldable pub create_entry : Datum → Entry
create_entry d = record {
  row = record { id = b'S' ∷ b'R' ∷ b'_' ∷ d.id; display = unset };
  name = d.name;
  links = d.links;
  children = if is_single d.links then none else some unset;
}

unfoldable pub create_results : List Datum → List Entry
unfolding create_entry
create_results [] = []
create_results (d ∷ ds) = create_entry d ∷ create_results ds

unfoldable pub rows_of : List Entry → List Row
rows_of [] = []
rows_of (e ∷ es) = e.row ∷ rows_of es

-- The page with the keys held on it, and the search box round it.
pub record Panel : Type 0 where
  pub entries : List Entry
  pub keys : Keys
  pub box : Box

-- How many children `Item` of an index has: the elements `Item`..`_c`0 and so on.
abbrev pub entry_children : Option Entry → ℕ
entry_children none = 0
entry_children (some e) = if is_set e.children then length e.links else 0

abbrev pub child_count : List Entry → ℕ → ℕ
child_count es index = entry_children (get_elem? es index)

-- FindChildElement of the row of an id: how the children of the first such row are displayed.
abbrev pub children_of : List Entry → List ℕ → Option Display
children_of [] id = none
children_of (e ∷ es) id = if list_eq e.row.id id then e.children else children_of es id

abbrev pub set_children : List Entry → List ℕ → Display → List Entry
set_children [] id d = []
set_children (e ∷ es) id d =
    if list_eq e.row.id id
    then (if is_set e.children then record e { children = some d } else e) ∷ es
    else e ∷ set_children es id d

abbrev pub are_shown : Option Display → Bool
are_shown none = false
are_shown (some d) = is_shown d

-- The children of the row that an item stands in.
abbrev pub item_id : Option Entry → List ℕ
item_id none = []
item_id (some e) = e.row.id

abbrev pub children_at : List Entry → ℕ → Option Display
children_at es index = children_of es (item_id (get_elem? es index))

abbrev pub focus_on : Focus → Panel → Panel
focus_on f p = record p { box = record p.box { focus = f } }

abbrev pub focus_found : Option ℕ → Panel → Panel
focus_found none p = p
focus_found (some index) p = focus_on (result_item index) p

unfoldable pub toggle : List ℕ → Panel → Panel
toggle id p = record p {
  entries =
      set_children p.entries id (if are_shown (children_of p.entries id) then hidden else shown);
}

-- The last child of the item before, if the children of the item found are shown.
abbrev pub last_child : ℕ → ℕ → ℕ → Focus
last_child found before zero = result_item found
last_child found before (suc n) = result_child before n

abbrev pub go_up : ℕ → Option ℕ → Panel → Panel
go_up index none p = focus_on search_field p
go_up index (some found) p =
    if are_shown (children_at p.entries found)
    then focus_on (last_child found (index - 1) (child_count p.entries (index - 1))) p
    else focus_on (result_item found) p

abbrev pub go_down : ℕ → Panel → Panel
go_down index p =
    if are_shown (children_at p.entries index) && ltb 0 (child_count p.entries index)
    then focus_on (result_child index 0) p
    else focus_found (nav_next (rows_of p.entries) (index + 1)) p

abbrev pub leave_results : Panel → Panel
leave_results p = record p { box = record (close_results_window p.box) { focus = search_field } }

-- The move of `Nav` for the last key.
unfoldable pub nav_move : ℕ → ℕ → Panel → Panel
nav_move key index p =
    if key == 38
    then go_up index (nav_prev (rows_of p.entries) index) p
    else if key == 40
    then go_down index p
    else if key == 39
    then record p { entries = set_children p.entries (item_id (get_elem? p.entries index)) shown }
    else if key == 37
    then record p { entries = set_children p.entries (item_id (get_elem? p.entries index)) hidden }
    else if key == 27
    then leave_results p
    else p

-- The move of `NavChild`.
unfoldable pub nav_child_move : ℕ → ℕ → ℕ → Panel → Panel
nav_child_move key index child p =
    if key == 38
    then focus_on (if ltb 0 child then result_child index (child - 1) else result_item index) p
    else if key == 40
    then if ltb (child + 1) (child_count p.entries index)
      then focus_on (result_child index (child + 1)) p
      else focus_found (nav_next (rows_of p.entries) (index + 1)) p
    else if key == 27
    then leave_results p
    else p

-- `ProcessKeys`, then the move if the event is acted on. The result says whether the browser goes on
-- with the event.
abbrev pub acted : (ℕ → Panel → Panel) → Keys × Bool → Panel → Panel × Bool
acted move (keys, act) p =
    let q = record p { keys = keys } in
    if act then (move keys.last_key q, keys.last_key == 13) else (q, false)

unfoldable pub nav : ℕ → KeyEvent → ℕ → Panel → Panel × Bool
unfolding process_keys
nav code event index p =
    if code == 13
    then (p, true)
    else acted (λ key. nav_move key index) (process_keys event p.keys) p

unfoldable pub nav_child : ℕ → KeyEvent → ℕ → ℕ → Panel → Panel × Bool
unfolding process_keys
nav_child code event index child p =
    if code == 13
    then (p, true)
    else acted (λ key. nav_child_move key index child) (process_keys event p.keys) p
