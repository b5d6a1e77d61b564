-- ===== src/DocSearch/Start/Menu.antt =====
-- The menu that init_search of docs/html/search/search.js makes.
use tacopie.Prelude.{
  ℕ, ◌+◌, ◌<◌, ◌≡◌, refl, Bool, true, false, List, [], ◌∷◌, ◌++◌, map, get_elem?, arith, length,
  is_set, ◌==◌,
}
use tacopie.DocSearch.Box.{Box, finished, Child, select_item_count, select_item_set}
use tacopie.DocSearch.Box.Marks.{
  items, marked_at, marked_at-select_item_set, select_item_count-select_item_set,
}
use tacopie.DocSearch.Start.{section_at, section_labels, new_link, init_search}
use tacopie.DocSearch.Box.Searching.{on_select_item}

select_item_count-new_links :
    (cs : List Child) (labels : List (List ℕ))
    → select_item_count (cs ++ map new_link labels) ≡ select_item_count cs + length labels
unfolding select_item_count
select_item_count-new_links [] [] = refl
select_item_count-new_links [] (l ∷ labels) = omega (arith, select_item_count-new_links [] labels)
select_item_count-new_links (c ∷ cs) labels = omega (arith, select_item_count-new_links cs labels)

module _ (lower : List ℕ → List ℕ) (above_one : List ℕ → Bool) where
  -- With the labels of the index, init_search runs to its end on a page whose search is not active and
  -- whose menu has no items yet. The menu then has the six items, the first one is chosen, an item of
  -- the menu is marked exactly if it is the first, and each has a section of the index to search in.
  pub init_search_lem :
      (b : Box) (k : ℕ)
      → b.search_active ≡ false
      → select_item_count b.children ≡ 0
      → k < length section_labels
      → (ready : Box) × (init_search lower above_one section_labels b ≡ finished ready)
        × (ready.search_index ≡ 0)
        × (select_item_count ready.children ≡ length section_labels)
        × (marked_at (get_elem? (items ready.children) k) ≡ (k == 0))
        × (is_set (section_at k) ≡ true)
  unfolding init_search on_select_item
  init_search_lem b k inactive no_items small =
      let links = b.children ++ map new_link section_labels in
      let counted = select_item_count-new_links b.children section_labels in
      (
        record b { search_index = 0; children = select_item_set 0 0 links },
        ground (arith, inactive),
        refl,
        omega (arith, select_item_count-select_item_set 0 0 links, counted, no_items),
        marked_at-select_item_set 0 k links (omega (arith, counted, no_items, small)),
        section_exists k small,
      )
    where
      section_exists : (k : ℕ) → k < length section_labels → is_set (section_at k) ≡ true
      section_exists k small = ground (arith, small)
