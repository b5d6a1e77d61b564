-- ===== src/DocSearch/Dom.antt =====
-- docs/html/search/search.js, FindChildElement: the walk over the elements below a row of results, by
-- first child, next sibling and parent, that looks for the div of the row's children.
pub mod Walk
use tacopie.Prelude.{
  ℕ, zero, suc, refl, Bool, true, false, ◌&&◌, List, [], ◌∷◌, Option, none, some, if◌then◌else◌,
}

-- An element: whether its tag is DIV, whether its class is SRChildren, its number in the document,
-- and its child nodes. A text node is an element of another tag.
mutual
  pub data Element : Type 0 where
    element : Bool → Bool → ℕ → Elements → Element

  pub data Elements : Type 0 where
    nil : Elements
    cons : Element → Elements → Elements

abbrev pub is_div : Element → Bool
is_div (element div children_class number below) = div

abbrev pub is_children : Element → Bool
is_children (element div children_class number below) = div && children_class

abbrev pub child_nodes : Element → Elements
child_nodes (element div children_class number below) = below

-- The parents' next siblings up to the row: the first parent that has one, and it with those after it.
unfoldable pub climb : List Elements → Option (Element × Elements × List Elements)
climb [] = none
climb (nil ∷ above) = climb above
climb (cons e next ∷ above) = some (e, next, above)

-- Where the walk goes from an element: to its first child, its next sibling, or its parent's.
abbrev pub move_on :
    Bool → Elements → Elements → List Elements → Option (Element × Elements × List Elements)
move_on true (cons e below) next above = some (e, below, next ∷ above)
move_on true nil (cons e next) above = some (e, next, above)
move_on true nil nil above = climb above
move_on false below (cons e next) above = some (e, next, above)
move_on false below nil above = climb above

-- The loop, at an element with the siblings after it and those after each of its parents. The fuel is
-- a bound on its rounds.
unfoldable pub walk : ℕ → Option (Element × Elements × List Elements) → Option Element
walk zero at = none
walk (suc fuel) none = none
walk (suc fuel) (some (e, next, above)) =
    let rest = walk fuel (move_on (is_div e) (child_nodes e) next above) in
    if is_children e then some e else rest

-- `FindChildElement` of the element whose child nodes these are.
unfoldable pub find_child_element : ℕ → Elements → Option Element
find_child_element fuel nil = walk fuel none
find_child_element fuel (cons e next) = walk fuel (some (e, next, []))
