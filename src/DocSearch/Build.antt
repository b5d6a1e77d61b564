-- ===== src/DocSearch/Build.antt =====
-- docs/html/search/search.js: the elements that createResults makes for the data of the index, with the
-- attributes that setClassAttr and setKeyActions set. A text of HTML that is set as innerHTML is kept
-- as it is: the texts of the index hold no elements.
pub mod Found
pub mod Items
pub mod Children
use tacopie.Prelude.{
  ℕ, zero, suc, ◌+◌, Bool, true, false, List, [], ◌∷◌, ◌++◌, Option, none, some, if◌then◌else◌,
  codes,
}
use tacopie.DocSearch.Box.{list_eq}
use tacopie.DocSearch.Numbers.{decimal}
use tacopie.DocSearch.Panel.{Link, Datum, is_single}

pub record Attribute : Type 0 where
  pub name : List ℕ
  pub value : List ℕ

-- An element: its tag, its attributes, its innerHTML and what is appended to it.
mutual
  pub data Node : Type 0 where
    node : List ℕ → List Attribute → List ℕ → Nodes → Node

  pub data Nodes : Type 0 where
    no_nodes : Nodes
    before : Node → Nodes → Nodes

abbrev pub create_element : List ℕ → Node
create_element tag = node tag [] [] no_nodes

-- An attribute that is there already gets the value, another goes behind the others.
abbrev pub with_attribute : List ℕ → List ℕ → List Attribute → List Attribute
with_attribute name value [] = record { name = name; value = value } ∷ []
with_attribute name value (a ∷ more) =
    if list_eq a.name name
    then record { name = name; value = value } ∷ more
    else a ∷ with_attribute name value more

abbrev pub set_attribute : List ℕ → List ℕ → Node → Node
set_attribute name value (node tag attributes html below) =
    node tag (with_attribute name value attributes) html below

abbrev pub set_inner_html : List ℕ → Node → Node
set_inner_html html (node tag attributes before_html below) = node tag attributes html no_nodes

abbrev pub append_node : Node → Nodes → Nodes
append_node child no_nodes = before child no_nodes
append_node child (before n rest) = before n (append_node child rest)

abbrev pub append_child : Node → Node → Node
append_child child (node tag attributes html below) =
    node tag attributes html (append_node child below)

abbrev pub set_key_actions : List ℕ → Node → Node
set_key_actions action n =
    set_attribute (codes "onkeyup") action
      (set_attribute (codes "onkeypress") action (set_attribute (codes "onkeydown") action n))

abbrev pub set_class_attr : List ℕ → Node → Node
set_class_attr attr n =
    set_attribute (codes "className") attr (set_attribute (codes "class") attr n)

abbrev pub set_target : Bool → Node → Node
set_target in_parent n = if in_parent then set_attribute (codes "target") (codes "_parent") n else n

-- `Item` and the number of an entry, with `_c` and the number of a child behind it for a child.
abbrev pub item_text : ℕ → List ℕ
item_text e = codes "Item" ++ decimal e

abbrev pub child_text : ℕ → ℕ → List ℕ
child_text e c = codes "Item" ++ (decimal e ++ (codes "_c" ++ decimal c))

-- The address of an item: where a single link leads, or a call that shows the children.
abbrev pub item_href : Datum → List Link → List ℕ
item_href d (link ∷ []) = link.href
item_href d links = codes "javascript:searchResults.Toggle(\"SR_" ++ d.id ++ codes "\")"

abbrev pub item_target : List Link → Bool
item_target (link ∷ []) = link.in_parent
item_target links = false

-- `srLink`. It is the same object that is appended to `srEntry` before its address is set.
unfoldable pub item_link : ℕ → Datum → Node
item_link e d = set_target (item_target d.links) (
    set_attribute (codes "href") (item_href d d.links) (
      set_inner_html d.name (
        set_class_attr (codes "SRSymbol") (
          set_key_actions (codes "return searchResults.Nav(event," ++ decimal e ++ codes ")")
            (set_attribute (codes "id") (item_text e) (create_element (codes "a")))))))

-- `srChild`.
unfoldable pub child_link : ℕ → ℕ → Link → Node
child_link e c link = set_inner_html link.scope (
    set_target link.in_parent (
      set_attribute (codes "href") link.href (
        set_class_attr (codes "SRScope") (
          set_key_actions
            (codes "return searchResults.NavChild(event,"
              ++ decimal e
              ++ codes ","
              ++ decimal c
              ++ codes ")")
            (set_attribute (codes "id") (child_text e c) (create_element (codes "a")))))))

-- The loop over the links from a number on, which appends the children.
unfoldable pub append_children : ℕ → ℕ → List Link → Node → Node
append_children e c [] n = n
append_children e c (link ∷ links) n =
    append_children e (c + 1) links (append_child (child_link e c link) n)

unfoldable pub scope_span : Link → Node
scope_span link =
    set_inner_html link.scope (set_class_attr (codes "SRScope") (create_element (codes "span")))

-- What stands behind the item's link in `srEntry`.
unfoldable pub beside_link : ℕ → List Link → Node
beside_link e (link ∷ []) = scope_span link
beside_link e links =
    append_children e 0 links (set_class_attr (codes "SRChildren") (create_element (codes "div")))

-- `srResult` of the entry of a number.
unfoldable pub result_row : ℕ → Datum → Node
result_row e d =
    append_child
      (append_child (beside_link e d.links) (
        append_child (item_link e d)
          (set_class_attr (codes "SREntry") (create_element (codes "div")))))
      (set_class_attr (codes "SRResult")
        (set_attribute (codes "id") (codes "SR_" ++ d.id) (create_element (codes "div"))))

-- The loop over `searchData` from a number on, which appends the rows to the element `SRResults`.
unfoldable pub append_results : ℕ → List Datum → Node → Node
append_results e [] results = results
append_results e (d ∷ ds) results =
    append_results (e + 1) ds (append_child (result_row e d) results)

-- The element `SRResults` of the page, and what it is after `createResults`.
abbrev pub empty_results : Node
empty_results = set_attribute (codes "id") (codes "SRResults") (create_element (codes "div"))

unfoldable pub create_nodes : List Datum → Node
create_nodes ds = append_results 0 ds empty_results

-- The first element of an id in a tree, in the order of the document.
abbrev pub id_of : List Attribute → Option (List ℕ)
id_of [] = none
id_of (a ∷ more) = if list_eq a.name (codes "id") then some a.value else id_of more

abbrev pub is_id : List ℕ → Option (List ℕ) → Bool
is_id id none = false
is_id id (some value) = list_eq value id

abbrev pub has_id : List ℕ → List Attribute → Bool
has_id id attributes = is_id id (id_of attributes)

abbrev pub or_else : Option Node → Option Node → Option Node
or_else none other = other
or_else (some n) other = some n

unfoldable pub get_element_by_id : List ℕ → Nodes → Option Node
get_element_by_id id no_nodes = none
get_element_by_id id (before (node tag attributes html below) rest) =
    if has_id id attributes
    then some (node tag attributes html below)
    else or_else (get_element_by_id id below) (get_element_by_id id rest)
