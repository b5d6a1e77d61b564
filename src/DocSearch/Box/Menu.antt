-- ===== src/DocSearch/Box/Menu.antt =====
-- The filter menu of the search box: how far the choice moves, and what a search opens.
use tacopie.Prelude.{
  &&_cases, ℕ, ◌+◌, ◌-◌, ◌≤◌, ◌≡◌, refl, ap, ◌∙◌, inl, inr, Bool, true, false, not, ◌&&◌, ◌||◌,
  List, Option, none, some, arith, Bool-cases, ltb, ◌==◌,
}
use tacopie.DocSearch.Results.{Display, unset, shown, hidden, strip_leading, is_empty}
use tacopie.DocSearch.Box.{
  close_selection_window, strip_spaces, Box, Ran, finished, thrown, select_item_count,
  select_item_set, and_then,
}
use tacopie.DocSearch.Box.Searching.{
  leave_menu, results_page, show_results, search, on_select_item, on_search_select_key,
  search_section, open_page, index_char, index_of,
}
use tacopie.DocSearch.Box.Marks.{select_item_count-select_item_set}

-- The box that a handler leaves.
abbrev pub left : Ran → Box
left (finished b) = b
left (thrown b) = b

show_results-keeps :
    (b : Box)
    → ((show_results b).search_index ≡ b.search_index)
      × ((show_results b).children ≡ b.children)
      × ((show_results b).results_window ≡ shown)
      × ((show_results b).key_timeout ≡ b.key_timeout)
      × ((show_results b).location ≡ b.location)
show_results-keeps b = cases (b.results_window) refl
  where
    cases :
        (d : Display)
        → b.results_window ≡ d
        → ((show_results b).search_index ≡ b.search_index)
          × ((show_results b).children ≡ b.children)
          × ((show_results b).results_window ≡ shown)
          × ((show_results b).key_timeout ≡ b.key_timeout)
          × ((show_results b).location ≡ b.location)
    cases unset h = rw (h) (refl, refl, refl, refl, refl)
    cases shown h = rw (h) (refl, refl, refl, refl, refl)
    cases hidden h = rw (h) (refl, refl, refl, refl, refl)

abbrev pub InRange : Ran → Type 0
InRange r = (left r).search_index ≤ select_item_count (left r).children

and_then-leave_menu-InRange : (r : Ran) → InRange r → InRange (and_then r leave_menu)
unfolding close_selection_window
and_then-leave_menu-InRange (finished b) h = h
and_then-leave_menu-InRange (thrown b) h = h

module _ (lower : List ℕ → List ℕ) (above_one : List ℕ → Bool)
    (sections : ℕ → Option (List ℕ)) where
  search_section-InRange :
      (o : Option (List ℕ)) (value : List ℕ) (b : Box)
      → b.search_index ≤ select_item_count b.children
      → InRange (search_section lower above_one sections o value b)
  search_section-InRange none value b h = h
  search_section-InRange (some chars) value b h =
      let place =
        results_page b.search_index (index_of (index_char lower above_one sections value) 0 chars)
          value in
      let kept = show_results-keeps (record b { location = place }) in
      ground (arith, kept.0, ap select_item_count kept.1, h)

  on_select_item-InRange :
      (id : ℕ) (b : Box)
      → id ≤ select_item_count b.children
      → InRange (on_select_item lower above_one sections id b)
  unfolding on_select_item search
  on_select_item-InRange id b h =
      elim (Bool-cases (not (is_empty (strip_spaces b.field_value)) && b.search_active)) [
        | inl due ↦ rw (due) (
            search_section-InRange (sections id) (strip_leading b.field_value)
              (record b {
                search_index = id;
                children = select_item_set id 0 b.children;
                key_timeout = false;
              })
              (omega (arith, h, select_item_count-select_item_set id 0 b.children)))
        | inr quiet ↦
            rw (quiet) (omega (arith, h, select_item_count-select_item_set id 0 b.children))
      ]

  -- From a choice of at most the number of the menu's items, a key in the menu leads to a choice of at
  -- most that number.
  pub on_search_select_key-InRange :
      (code : ℕ) (b : Box)
      → b.search_index ≤ select_item_count b.children
      → InRange (on_search_select_key lower above_one sections code b)
  unfolding on_search_select_key
  on_search_select_key-InRange code b h =
      let inside = &&_cases (code == 40) (ltb b.search_index (select_item_count b.children)) in
      elim (Bool-cases (code == 40 && ltb b.search_index (select_item_count b.children))) [
        | inl down ↦
            rw (down)
              (on_select_item-InRange (b.search_index + 1) b (ground (arith, (inside down).1)))
        | inr not_down ↦ elim (Bool-cases (code == 38 && ltb 0 b.search_index)) [
          | inl up ↦
              rw (not_down, up) (on_select_item-InRange (b.search_index - 1) b (omega (arith, h)))
          | inr not_up ↦ elim (Bool-cases (code == 13 || code == 27)) [
            | inl leave ↦
                rw (not_down, not_up, leave)
                  (and_then-leave_menu-InRange
                    (on_select_item lower above_one sections b.search_index b)
                    (on_select_item-InRange b.search_index b h))
            | inr other ↦ rw (not_down, not_up, other) h
          ]
        ]
      ]

  -- The search that a box makes whose section exists ends on its last line: the window with the results
  -- is shown, no timer is due, and the page asked for is that of the place of the term's first
  -- character among the section's, or the one that says there is no match.
  pub search-finished :
      (b : Box) (chars : List ℕ)
      → sections b.search_index ≡ some chars
      → let value = strip_leading b.field_value in
        (after : Box) × (search lower above_one sections b ≡ finished after)
        × (after.results_window ≡ shown)
        × (after.key_timeout ≡ false)
        × (after.last_search_value ≡ value)
        × (after.location
            ≡ results_page b.search_index
                (index_of (index_char lower above_one sections value) 0 chars)
                value)
  unfolding search
  search-finished b chars section =
      let value = strip_leading b.field_value in
      let found = index_of (index_char lower above_one sections value) 0 chars in
      let kept =
        show_results-keeps
          (record b { key_timeout = false; location = results_page b.search_index found value }) in
      rw (section) (
        open_page lower above_one sections found value (record b { key_timeout = false }),
        refl,
        kept.2,
        kept.3,
        refl,
        kept.4,
      )

  -- Down on the last item, with a search going on, chooses an item past the last: where the index has
  -- no such section the search that follows ends in an exception.
  pub on_search_select_key-thrown :
      (b : Box)
      → b.search_index + 1 ≡ select_item_count b.children
      → is_empty (strip_spaces b.field_value) ≡ false
      → b.search_active ≡ true
      → sections (select_item_count b.children) ≡ none
      → (after : Box) × (on_search_select_key lower above_one sections 40 b ≡ thrown after)
        × (after.search_index ≡ select_item_count b.children)
  unfolding on_search_select_key on_select_item search
  on_search_select_key-thrown b last typed active missing =
      let inside : ltb b.search_index (select_item_count b.children) ≡ true =
        ground (arith, last) in
      let due : (not (is_empty (strip_spaces b.field_value)) && b.search_active) ≡ true =
        rw (typed, active) refl in
      let gone : sections (b.search_index + 1) ≡ none = ap sections last ∙ missing in
      rw (inside, due, gone)
        (
          record b {
            key_timeout = false;
            search_index = b.search_index + 1;
            children = select_item_set (b.search_index + 1) 0 b.children;
          },
          refl,
          last,
        )
