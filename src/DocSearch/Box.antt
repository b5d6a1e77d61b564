-- ===== src/DocSearch/Box.antt =====
-- docs/html/search/search.js, SearchBox: the search field, its filter menu and its results window.
-- A timer is running or not; where on the screen a window stands is in `Positions`. Moving the focus
-- may make the browser raise further events, which are calls of their own here. `lower` stands for the
-- platform's toLowerCase, `above_one` for its comparison of a text with the number 1.
pub mod Marks
pub mod Searching
pub mod Typing
pub mod Menu
use tacopie.Prelude.{
  ℕ, suc, ◌+◌, refl, Bool, true, false, ◌&&◌, ◌||◌, List, [], ◌∷◌, Option, none, some,
  if◌then◌else◌, to_nat, ◌==◌,
}
use tacopie.DocSearch.Results.{Display, shown, hidden, is_shown, Page, nav_next, is_empty}

pub data Focus : Type 0 where
  nothing : Focus
  search_field : Focus
  menu_item : ℕ → Focus
  result_item : ℕ → Focus
  result_child : ℕ → ℕ → Focus

-- A child of the menu: whether its class is SelectItem, and whether it has the bullet.
pub record Child : Type 0 where
  pub is_select_item : Bool
  pub marked : Bool

-- The page in the results frame: a part of the index, found by its section and its number there,
-- with or without the term to search for, or the page that says there is no match.
pub data Location : Type 0 where
  blank : Location
  index_page : ℕ → ℕ → List ℕ → Location
  no_match_page : Location

pub record Box : Type 0 where
  pub key_timeout : Bool
  pub hide_timeout : Bool
  pub last_search_value : List ℕ
  pub last_results_page : Location
  pub search_index : ℕ
  pub search_active : Bool
  pub search_label : List ℕ
  pub field_value : List ℕ
  pub results_window : Display
  pub close_button : Display
  pub select_window : Display
  pub panel_active : Bool
  pub children : List Child
  pub location : Location
  pub results : Option Page
  pub focus : Focus

-- How a handler ends: on its last line, or by an exception that nothing catches.
pub data Ran : Type 0 where
  finished : Box → Ran
  thrown : Box → Ran

abbrev pub and_then : Ran → (Box → Ran) → Ran
and_then (finished b) k = k b
and_then (thrown b) k = thrown b

abbrev pub list_eq : List ℕ → List ℕ → Bool
list_eq [] [] = true
list_eq [] (y ∷ ys) = false
list_eq (x ∷ xs) [] = false
list_eq (x ∷ xs) (y ∷ ys) = x == y && list_eq xs ys

-- replace(/ +/g, "")
abbrev pub strip_spaces : List ℕ → List ℕ
strip_spaces [] = []
strip_spaces (c ∷ cs) = let rest = strip_spaces cs in if c == b' ' then rest else c ∷ rest

-- `Activate`
unfoldable pub activate : Bool → Box → Box
activate active b =
    if active || is_shown b.results_window
    then if list_eq b.field_value b.search_label
      then record b { panel_active = true; field_value = []; search_active = true }
      else record b { panel_active = true }
    else record b {
      panel_active = false;
      field_value = b.search_label;
      search_active = false;
      last_search_value = [];
      last_results_page = blank;
    }

unfoldable pub on_search_field_focus : Bool → Box → Box
on_search_field_focus active b = activate active b

unfoldable pub on_search_select_show : Box → Box
on_search_select_show b = record b { select_window = shown; hide_timeout = false }

unfoldable pub on_search_select_hide : Box → Box
on_search_select_hide b = record b { hide_timeout = true }

unfoldable pub close_selection_window : Box → Box
close_selection_window b = record b { select_window = hidden }

unfoldable pub close_results_window : Box → Box
close_results_window b =
    activate false (record b { results_window = hidden; close_button = hidden })

-- The first child of the class SelectItem, from a place in the menu on.
abbrev pub first_item : List Child → ℕ → Option ℕ
first_item [] at = none
first_item (c ∷ cs) at =
    let rest = first_item cs (suc at) in if c.is_select_item then some at else rest

abbrev pub focus_item : Option ℕ → Box → Box
focus_item none b = b
focus_item (some at) b = record b { focus = menu_item at }

abbrev pub focus_result : Option ℕ → Box → Box
focus_result none b = b
focus_result (some at) b = record b { focus = result_item at }

abbrev pub first_result : Option Page → Option ℕ
first_result none = none
first_result (some page) = nav_next page.rows 0

-- The focus goes to the first result shown, if there is a page of results.
abbrev pub enter_results : Box → Box
enter_results b = focus_result (first_result b.results) b

-- The end of `OnSearchFieldChange`: what the new content calls for.
abbrev pub schedule_search : Box → Box
schedule_search b =
    if list_eq (strip_spaces b.field_value) b.last_search_value
    then b
    else if is_empty (strip_spaces b.field_value)
    then record b { results_window = hidden; close_button = hidden; last_search_value = [] }
    else record b { key_timeout = true }

unfoldable pub on_search_field_change : ℕ → Bool → Box → Box
on_search_field_change code shift before =
    let b = record before { key_timeout = false } in
    if code == 40 || code == 13
    then if shift
      then focus_item (first_item b.children 0) (on_search_select_show b)
      else schedule_search (enter_results b)
    else if code == 27
    then activate false (record b {
      focus = nothing;
      results_window = hidden;
      close_button = hidden;
      last_search_value = [];
    })
    else schedule_search b

unfoldable pub select_item_count : List Child → ℕ
select_item_count [] = 0
select_item_count (c ∷ cs) = to_nat c.is_select_item + select_item_count cs

-- `SelectItemSet`, where `at` items stand before the list.
unfoldable pub select_item_set : ℕ → ℕ → List Child → List Child
select_item_set id at [] = []
select_item_set id at (c ∷ cs) =
    if c.is_select_item
    then record c { marked = at == id } ∷ select_item_set id (suc at) cs
    else c ∷ select_item_set id at cs
