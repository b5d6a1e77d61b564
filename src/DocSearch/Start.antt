-- ===== src/DocSearch/Start.antt =====
-- docs/html/search/searchdata.js and the function init_search of docs/html/search/search.js: the data
-- of this project's index, and the menu that is made from it. A text is one of the labels; the links
-- of the menu carry the number that OnSelectItem gets.
pub mod Menu
use tacopie.Prelude.{ℕ, ◌+◌, Bool, true, false, List, [], ◌∷◌, ◌++◌, Option, map, get_elem?, codes}
use tacopie.DocSearch.Box.{Box, Ran, Child}
use tacopie.DocSearch.Box.Searching.{on_select_item}

-- `indexSectionsWithContent`: the first characters of the entries of each section.
abbrev pub sections_with_content : List (List ℕ)
sections_with_content =
    codes "abcdegilnorstuw~"
    ∷ codes "ilrstw"
    ∷ codes "abcdegilnorstuw~"
    ∷ codes "abs"
    ∷ codes "adeot"
    ∷ codes "lt"
    ∷ []

abbrev pub section_names : List (List ℕ)
section_names =
    codes "all"
    ∷ codes "classes"
    ∷ codes "functions"
    ∷ codes "variables"
    ∷ codes "typedefs"
    ∷ codes "enums"
    ∷ []

abbrev pub section_labels : List (List ℕ)
section_labels =
    codes "All"
    ∷ codes "Classes"
    ∷ codes "Functions"
    ∷ codes "Variables"
    ∷ codes "Typedefs"
    ∷ codes "Enumerations"
    ∷ []

abbrev pub section_at : ℕ → Option (List ℕ)
section_at index = get_elem? sections_with_content index

-- A link of the menu, with a blank for the mark.
abbrev pub new_link : List ℕ → Child
new_link label = record { is_select_item = true; marked = false }

module _ (lower : List ℕ → List ℕ) (above_one : List ℕ → Bool) where
  -- The links go behind what the window holds already.
  unfoldable pub init_search : List (List ℕ) → Box → Ran
  init_search labels b =
      on_select_item lower above_one section_at 0
        (record b { children = b.children ++ map new_link labels })
