-- ===== src/DocSearch/Dom/Walk.antt =====
-- The walk of FindChildElement against a search by recursion on the tree of elements.
use tacopie.Prelude.{
  ℕ, zero, suc, ◌+◌, ◌≤◌, ◌≡◌, refl, sym, ap, ◌∙◌, inl, inr, Bool, true, false, ◌&&◌, List, [], ◌∷◌,
  Option, none, some, arith, if◌then◌else◌, Bool-cases,
}
use tacopie.DocSearch.Dom.{
  find_child_element, Element, element, Elements, nil, cons, climb, move_on, walk,
}

abbrev pub or_else : Option Element → Option Element → Option Element
or_else none other = other
or_else (some e) other = some e

-- The first div of the class SRChildren in document order, where only divs are entered; and the
-- number of the elements.
unfoldable mutual
  pub find_first : Element → Option Element
  find_first (element div children_class number below) =
      let inside = find_any below in
      if div && children_class
      then some (element div children_class number below)
      else if div
      then inside
      else none

  pub find_any : Elements → Option Element
  find_any nil = none
  find_any (cons e next) = or_else (find_first e) (find_any next)

  pub size : Element → ℕ
  size (element div children_class number below) = 1 + sizes below

  pub sizes : Elements → ℕ
  sizes nil = 0
  sizes (cons e next) = size e + sizes next

unfoldable find_rest : List Elements → Option Element
find_rest [] = none
find_rest (next ∷ above) = or_else (find_any next) (find_rest above)

unfoldable sizes_rest : List Elements → ℕ
sizes_rest [] = 0
sizes_rest (next ∷ above) = sizes next + sizes_rest above

abbrev Cursor : Type 0
Cursor = Option (Element × Elements × List Elements)

-- What is found from a place of the walk on, and how many elements are left there.
abbrev found : Cursor → Option Element
found none = none
found (some (e, next, above)) = or_else (find_first e) (or_else (find_any next) (find_rest above))

abbrev left : Cursor → ℕ
left none = 0
left (some (e, next, above)) = size e + (sizes next + sizes_rest above)

or_else_assoc : (a b c : Option Element) → or_else (or_else a b) c ≡ or_else a (or_else b c)
or_else_assoc none b c = refl
or_else_assoc (some e) b c = refl

found-climb :
    (above : List Elements)
    → (found (climb above) ≡ find_rest above) × (left (climb above) ≡ sizes_rest above)
unfolding climb find_rest sizes_rest find_any sizes
found-climb [] = (refl, refl)
found-climb (nil ∷ above) = ((found-climb above).0, omega (arith, (found-climb above).1))
found-climb (cons e next ∷ above) =
    (sym (or_else_assoc (find_first e) (find_any next) (find_rest above)), omega arith)

found-move_on :
    (div : Bool) (below next : Elements) (above : List Elements)
    → (found (move_on div below next above)
        ≡ or_else
            (if div then find_any below else none)
            (or_else (find_any next) (find_rest above)))
      × (left (move_on div below next above) ≤ sizes below + (sizes next + sizes_rest above))
unfolding find_rest sizes_rest find_any sizes
found-move_on true (cons e below) next above = (
  sym (or_else_assoc (find_first e) (find_any below) (or_else (find_any next) (find_rest above))),
  omega arith,
)
found-move_on true nil (cons e next) above =
    (sym (or_else_assoc (find_first e) (find_any next) (find_rest above)), omega arith)
found-move_on true nil nil above = ((found-climb above).0, omega (arith, (found-climb above).1))
found-move_on false below (cons e next) above =
    (sym (or_else_assoc (find_first e) (find_any next) (find_rest above)), omega arith)
found-move_on false below nil above = ((found-climb above).0, omega (arith, (found-climb above).1))

walk-found : (fuel : ℕ) (at : Cursor) → left at ≤ fuel → walk fuel at ≡ found at
unfolding walk find_first size
walk-found zero none h = refl
walk-found zero (some (element div children_class number below, next, above)) h =
    absurd (omega arith)
walk-found (suc fuel) none h = refl
walk-found (suc fuel) (some (element div children_class number below, next, above)) h =
    let moved = found-move_on div below next above in
    elim (Bool-cases (div && children_class)) [
      | inl here ↦ rw (here) refl
      | inr elsewhere ↦
          rw (elsewhere)
            (walk-found fuel (move_on div below next above) (omega (arith, moved.1, h)) ∙ moved.0)
    ]

or_else-none : (o : Option Element) → or_else o none ≡ o
or_else-none none = refl
or_else-none (some e) = refl

-- With as many rounds as there are elements the walk ends, and it finds the first div of the class
-- SRChildren in the order of the document, where only divs are entered.
pub find_child_element-find_any :
    (fuel : ℕ) (below : Elements)
    → sizes below ≤ fuel
    → find_child_element fuel below ≡ find_any below
unfolding find_child_element find_any sizes find_rest sizes_rest
find_child_element-find_any fuel nil h = walk-found fuel none (omega arith)
find_child_element-find_any fuel (cons e next) h =
    walk-found fuel (some (e, next, [])) (omega (arith, h))
    ∙ ap (or_else (find_first e)) (or_else-none (find_any next))
