-- ===== src/DocSearch/Build/Found.antt =====
-- The elements that createResults of docs/html/search/search.js makes are found by their ids.
use tacopie.Prelude.{
  ℕ, ◌+◌, ◌≡◌, refl, ap, ◌∙◌, Bool, false, List, [], ◌∷◌, Option, none, some, if◌then◌else◌, arith,
  Bool-cases, inl, inr,
}
use tacopie.DocSearch.Box.{list_eq}
use tacopie.DocSearch.Panel.{Link, Datum, is_single}
use tacopie.DocSearch.Build.{
  item_target, scope_span, Node, node, Nodes, no_nodes, before, append_node, id_of, Attribute,
  has_id, or_else, get_element_by_id, item_text, child_text, item_link, child_link, append_children,
  beside_link, result_row, append_results, create_nodes, empty_results,
}

or_else_assoc : (a b c : Option Node) → or_else (or_else a b) c ≡ or_else a (or_else b c)
or_else_assoc none b c = refl
or_else_assoc (some n) b c = refl

pub or_else-none : (a : Option Node) → or_else a none ≡ a
or_else-none none = refl
or_else-none (some n) = refl

abbrev pub pick : Bool → Node → Option Node
pick b n = if b then some n else none

-- The element of an id in a node and below it.
abbrev pub find_in : List ℕ → Node → Option Node
find_in id n = get_element_by_id id (before n no_nodes)

abbrev below : Node → Nodes
below (node tag attributes html nodes) = nodes

find-append_node :
    (id : List ℕ) (n : Node) (ns : Nodes)
    → get_element_by_id id (append_node n ns) ≡ or_else (get_element_by_id id ns) (find_in id n)
unfolding get_element_by_id
find-append_node id n no_nodes = refl
find-append_node id n (before (node tag attributes html nodes) ns) = ground (
  arith,
  find-append_node id n ns,
  or_else_assoc (get_element_by_id id nodes) (get_element_by_id id ns) (find_in id n),
)

find-before :
    (id : List ℕ) (n : Node) (ns : Nodes)
    → get_element_by_id id (before n ns) ≡ or_else (find_in id n) (get_element_by_id id ns)
unfolding get_element_by_id
find-before id (node tag attributes html nodes) ns = ground (
  arith,
  or_else-none (get_element_by_id id nodes),
  or_else_assoc (get_element_by_id id nodes) none (get_element_by_id id ns),
)

-- The children of an item from a number on.
abbrev pub find_children : List ℕ → ℕ → ℕ → List Link → Option Node
find_children id e c [] = none
find_children id e c (l ∷ ls) =
    or_else (pick (list_eq (child_text e c) id) (child_link e c l)) (find_children id e (c + 1) ls)

abbrev pub find_beside : List ℕ → ℕ → List Link → Option Node
find_beside id e links = if is_single links then none else find_children id e 0 links

abbrev pub find_row : List ℕ → ℕ → Datum → Option Node
find_row id e d =
    or_else (pick (list_eq (item_text e) id) (item_link e d)) (find_beside id e d.links)

abbrev pub find_rows : List ℕ → ℕ → List Datum → Option Node
find_rows id e [] = none
find_rows id e (d ∷ ds) = or_else (find_row id e d) (find_rows id (e + 1) ds)

abbrev attributes_of : Node → List Attribute
attributes_of (node tag attributes html nodes) = attributes

find_in-lone :
    (id own : List ℕ) (n : Node)
    → id_of (attributes_of n) ≡ some own
    → below n ≡ no_nodes
    → find_in id n ≡ pick (list_eq own id) n
unfolding get_element_by_id
find_in-lone id own (node tag attributes html nodes) named alone = rw (named, alone) refl

find_in-item_link :
    (id : List ℕ) (e : ℕ) (d : Datum)
    → find_in id (item_link e d) ≡ pick (list_eq (item_text e) id) (item_link e d)
unfolding item_link
find_in-item_link id e d = find_in-lone id (item_text e) (item_link e d) named alone
  where
    named : id_of (attributes_of (item_link e d)) ≡ some (item_text e)
    named = elim (Bool-cases (item_target d.links)) [
      | inl parent ↦ rw parent refl
      | inr own ↦ rw own refl
    ]

    alone : below (item_link e d) ≡ no_nodes
    alone = elim (Bool-cases (item_target d.links)) [
      | inl parent ↦ rw parent refl
      | inr own ↦ rw own refl
    ]

find_in-child_link :
    (id : List ℕ) (e c : ℕ) (l : Link)
    → find_in id (child_link e c l) ≡ pick (list_eq (child_text e c) id) (child_link e c l)
unfolding child_link
find_in-child_link id e c l = find_in-lone id (child_text e c) (child_link e c l) named alone
  where
    named : id_of (attributes_of (child_link e c l)) ≡ some (child_text e c)
    named = elim (Bool-cases l.in_parent) [ inl parent ↦ rw parent refl | inr own ↦ rw own refl ]

    alone : below (child_link e c l) ≡ no_nodes
    alone = elim (Bool-cases l.in_parent) [ inl parent ↦ rw parent refl | inr own ↦ rw own refl ]

-- Appending children to an element keeps the element's own attributes.
find-append_children :
    (id : List ℕ) (e c : ℕ) (ls : List Link) (n : Node)
    → has_id id (attributes_of n) ≡ false
    → find_in id (append_children e c ls n)
      ≡ or_else (get_element_by_id id (below n)) (find_children id e c ls)
unfolding append_children get_element_by_id
find-append_children id e c [] (node tag attributes html nodes) other = rw other refl
find-append_children id e c (l ∷ ls) (node tag attributes html nodes) other =
    find-append_children id e (c + 1) ls
      (node tag attributes html (append_node (child_link e c l) nodes)) other
    ∙ ap (λ o. or_else o (find_children id e (c + 1) ls))
        (find-append_node id (child_link e c l) nodes
          ∙ ap (or_else (get_element_by_id id nodes)) (find_in-child_link id e c l))
    ∙ or_else_assoc (get_element_by_id id nodes)
        (pick (list_eq (child_text e c) id) (child_link e c l)) (find_children id e (c + 1) ls)

find_in-beside_link :
    (id : List ℕ) (e : ℕ) (links : List Link)
    → find_in id (beside_link e links) ≡ find_beside id e links
unfolding beside_link scope_span get_element_by_id
find_in-beside_link id e [] = find-append_children id e 0 [] _ refl
find_in-beside_link id e (l ∷ []) = refl
find_in-beside_link id e (l ∷ m ∷ ls) = find-append_children id e 0 (l ∷ m ∷ ls) _ refl

-- An id of an item or a child begins with another character than the id of a row.
find_in-result_row :
    (t : List ℕ) (e : ℕ) (d : Datum) → find_in (b'I' ∷ t) (result_row e d) ≡ find_row (b'I' ∷ t) e d
unfolding result_row get_element_by_id
find_in-result_row t e d =
    or_else-none (or_else (get_element_by_id (b'I' ∷ t) inside) none)
    ∙ or_else-none (get_element_by_id (b'I' ∷ t) inside)
    ∙ find-before (b'I' ∷ t) (item_link e d) (before (beside_link e d.links) no_nodes)
    ∙ ap (λ o. or_else o (find_in (b'I' ∷ t) (beside_link e d.links)))
        (find_in-item_link (b'I' ∷ t) e d)
    ∙ ap (or_else (pick (list_eq (item_text e) (b'I' ∷ t)) (item_link e d)))
        (find_in-beside_link (b'I' ∷ t) e d.links)
  where
    inside : Nodes
    inside = before (item_link e d) (before (beside_link e d.links) no_nodes)

find-append_results :
    (t : List ℕ) (e : ℕ) (ds : List Datum) (n : Node)
    → has_id (b'I' ∷ t) (attributes_of n) ≡ false
    → find_in (b'I' ∷ t) (append_results e ds n)
      ≡ or_else (get_element_by_id (b'I' ∷ t) (below n)) (find_rows (b'I' ∷ t) e ds)
unfolding append_results get_element_by_id
find-append_results t e [] (node tag attributes html nodes) other = rw other refl
find-append_results t e (d ∷ ds) (node tag attributes html nodes) other =
    find-append_results t (e + 1) ds (node tag attributes html (append_node (result_row e d) nodes))
      other
    ∙ ap (λ o. or_else o (find_rows (b'I' ∷ t) (e + 1) ds))
        (find-append_node (b'I' ∷ t) (result_row e d) nodes
          ∙ ap (or_else (get_element_by_id (b'I' ∷ t) nodes)) (find_in-result_row t e d))
    ∙ or_else_assoc (get_element_by_id (b'I' ∷ t) nodes) (find_row (b'I' ∷ t) e d)
        (find_rows (b'I' ∷ t) (e + 1) ds)

pub find_in-create_nodes :
    (t : List ℕ) (ds : List Datum)
    → find_in (b'I' ∷ t) (create_nodes ds) ≡ find_rows (b'I' ∷ t) 0 ds
unfolding create_nodes get_element_by_id
find_in-create_nodes t ds = find-append_results t 0 ds empty_results refl
