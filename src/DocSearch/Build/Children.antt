-- ===== src/DocSearch/Build/Children.antt =====
-- FindChildElement of docs/html/search/search.js on a row that createResults makes.
use tacopie.Prelude.{
  ℕ, ◌+◌, ◌≤◌, ◌≡◌, refl, ap, sym, not, ◌∙◌, true, false, List, [], ◌∷◌, Option, none, some,
  if◌then◌else◌, codes, is_set, Bool-cases, inl, inr,
}
use tacopie.DocSearch.Box.{list_eq}
use tacopie.DocSearch.Dom.{Element, element, Elements, nil, cons, find_child_element}
use tacopie.DocSearch.Dom.Walk.{or_else, find_first, find_any, sizes, find_child_element-find_any}
use tacopie.DocSearch.Panel.{is_single, Link, Datum, create_entry}
use tacopie.DocSearch.Build.{
  Node, node, Nodes, no_nodes, before, Attribute, append_child, append_children, beside_link,
  item_target, item_link, child_link, result_row, scope_span, set_class_attr, create_element,
}

abbrev class_of : List Attribute → List ℕ
class_of [] = []
class_of (a ∷ more) = if list_eq a.name (codes "class") then a.value else class_of more

abbrev tag_of : Node → List ℕ
tag_of (node tag attributes html nodes) = tag

abbrev class_in : Node → List ℕ
class_in (node tag attributes html nodes) = class_of attributes

abbrev pub below : Node → Nodes
below (node tag attributes html nodes) = nodes

module _ (number : Node → ℕ) where
  -- The elements as FindChildElement sees them.
  unfoldable mutual
    pub to_element : Node → Element
    to_element (node tag attributes html nodes) =
        element (list_eq tag (codes "div")) (list_eq (class_of attributes) (codes "SRChildren"))
          (number (node tag attributes html nodes)) (to_elements nodes)

    pub to_elements : Nodes → Elements
    to_elements no_nodes = nil
    to_elements (before n rest) = cons (to_element n) (to_elements rest)

  find_first-other :
      (n : Node) → list_eq (tag_of n) (codes "div") ≡ false → find_first (to_element n) ≡ none
  unfolding find_first to_element
  find_first-other (node tag attributes html nodes) other = rw (other) refl

  find_first-children :
      (n : Node)
      → list_eq (tag_of n) (codes "div") ≡ true
      → list_eq (class_in n) (codes "SRChildren") ≡ true
      → find_first (to_element n) ≡ some (to_element n)
  unfolding find_first to_element
  find_first-children (node tag attributes html nodes) is_div is_children =
      rw (is_div, is_children) refl

tag_of-item_link : (e : ℕ) (d : Datum) → tag_of (item_link e d) ≡ codes "a"
unfolding item_link
tag_of-item_link e d = elim (Bool-cases (item_target d.links)) [
  | inl parent ↦ rw parent refl
  | inr own ↦ rw own refl
]

tag_of-append_children :
    (e c : ℕ) (ls : List Link) (n : Node) → tag_of (append_children e c ls n) ≡ tag_of n
unfolding append_children
tag_of-append_children e c [] n = refl
tag_of-append_children e c (l ∷ ls) (node tag attributes html nodes) =
    tag_of-append_children e (c + 1) ls
      (append_child (child_link e c l) (node tag attributes html nodes))

class_in-append_children :
    (e c : ℕ) (ls : List Link) (n : Node) → class_in (append_children e c ls n) ≡ class_in n
unfolding append_children
class_in-append_children e c [] n = refl
class_in-append_children e c (l ∷ ls) (node tag attributes html nodes) =
    class_in-append_children e (c + 1) ls
      (append_child (child_link e c l) (node tag attributes html nodes))

children_div : Node
children_div = set_class_attr (codes "SRChildren") (create_element (codes "div"))

find_first-several :
    (number : Node → ℕ) (e : ℕ) (ls : List Link)
    → find_first (to_element number (append_children e 0 ls children_div))
      ≡ some (to_element number (append_children e 0 ls children_div))
unfolding children_div
find_first-several number e ls =
    find_first-children number (append_children e 0 ls children_div)
      (ap (λ tag. list_eq tag (codes "div")) (tag_of-append_children e 0 ls children_div))
      (ap (λ name. list_eq name (codes "SRChildren"))
        (class_in-append_children e 0 ls children_div))

is_set-beside_link :
    (number : Node → ℕ) (e : ℕ) (ls : List Link)
    → is_set (find_first (to_element number (beside_link e ls))) ≡ not (is_single ls)
unfolding beside_link scope_span children_div
is_set-beside_link number e [] = ap is_set (find_first-several number e [])
is_set-beside_link number e (l ∷ []) = ap is_set (find_first-other number (scope_span l) refl)
is_set-beside_link number e (l ∷ m ∷ ls) = ap is_set (find_first-several number e (l ∷ m ∷ ls))

is_set-or_else : (o : Option Element) → is_set (or_else (or_else o none) none) ≡ is_set o
is_set-or_else none = refl
is_set-or_else (some x) = refl

is_set-children : (d : Datum) → is_set ((create_entry d).children) ≡ not (is_single d.links)
unfolding create_entry
is_set-children d = elim (Bool-cases (is_single d.links)) [
  | inl single ↦ rw single refl
  | inr several ↦ rw several refl
]

-- FindChildElement on the row of an entry, with a bound for its rounds of at least the number of the
-- elements below the row, finds an element exactly when the page's entry has children.
find_child_element-result_row :
    (number : Node → ℕ) (fuel e : ℕ) (d : Datum)
    → sizes (to_elements number (below (result_row e d))) ≤ fuel
    → is_set (find_child_element fuel (to_elements number (below (result_row e d))))
      ≡ is_set ((create_entry d).children)
unfolding find_any find_first to_elements result_row
find_child_element-result_row number fuel e d enough =
    ap is_set
      (find_child_element-find_any fuel (to_elements number (below (result_row e d))) enough)
    ∙ ap (λ o. is_set (or_else (or_else o (or_else beside none)) none))
        (find_first-other number (item_link e d)
          (ap (λ tag. list_eq tag (codes "div")) (tag_of-item_link e d)))
    ∙ is_set-or_else beside
    ∙ is_set-beside_link number e d.links
    ∙ sym (is_set-children d)
  where
    beside : Option Element
    beside = find_first (to_element number (beside_link e d.links))
