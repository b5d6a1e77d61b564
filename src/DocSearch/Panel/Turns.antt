-- ===== src/DocSearch/Panel/Turns.antt =====
-- What the keys on a page of results undo and repeat, and where the move up goes astray.
use tacopie.DocSearch.Moves.{PrevIs, nav_prev-PrevIs}
use mathlib.Core.Path.{subst}
use tacopie.DocSearch.Results.{row_shown}
use tacopie.Prelude.{
  ◌≤◌, length, get_elem?, ℕ, zero, suc, ◌+◌, ◌-◌, ◌<◌, ◌≡◌, refl, ap, ◌∙◌, true, false, not, List,
  [], ◌∷◌, some, arith, if◌then◌else◌,
}
use tacopie.DocSearch.Results.{
  Display, shown, hidden, is_shown, Keys, keydown, keypress, keyup, process_keys, nav_prev,
}
use tacopie.DocSearch.Box.{result_item, result_child}
use tacopie.DocSearch.Panel.{
  Panel, Entry, nav_move, nav_child_move, toggle, children_of, set_children, are_shown, rows_of,
  child_count, children_at,
}

-- Down from a child that is not the last goes to the next child, and Up from there leads back; Up
-- from the first child leads to its item.
pub nav_child_move-rounds :
    (index child : ℕ) (p : Panel)
    → child + 1 < child_count p.entries index
    → ((nav_child_move 40 index child p).box.focus ≡ result_child index (child + 1))
      × ((nav_child_move 38 index (child + 1) (nav_child_move 40 index child p)).box.focus
          ≡ result_child index child)
      × ((nav_child_move 38 index 0 p).box.focus ≡ result_item index)
unfolding nav_child_move
nav_child_move-rounds index child p more = (ground arith, ground arith, refl)

-- A number of keypresses.
abbrev pub presses : ℕ → Keys → Keys
presses zero keys = keys
presses (suc n) keys = presses n (process_keys keypress keys).0

keypress-held : (keys : Keys) → keys.repeat_on ≡ true → (process_keys keypress keys).0 ≡ keys
unfolding process_keys
keypress-held keys held = rw (held) refl

presses-held : (n : ℕ) (keys : Keys) → keys.repeat_on ≡ true → presses n keys ≡ keys
presses-held zero keys held = refl
presses-held (suc n) keys held = ap (presses n) (keypress-held keys held) ∙ presses-held n keys held

keypress-acts :
    (keys : Keys)
    → keys.repeat_on ≡ true
    → 0 < keys.last_key
    → (process_keys keypress keys).1 ≡ true
unfolding process_keys
keypress-acts keys held typed = ground arith

-- A key that is held: the first keypress after its keydown is ignored, all later ones are acted on,
-- and after its keyup a keypress is ignored again.
pub process_keys-presses :
    (code n : ℕ) (keys : Keys)
    → 0 < code
    → let down = (process_keys (keydown code) keys).0 in
      ((process_keys keypress down).1 ≡ false)
      × ((process_keys keypress (presses (suc n) down)).1 ≡ true)
      × ((process_keys keypress (process_keys keyup (presses n down)).0).1 ≡ false)
unfolding process_keys
process_keys-presses code n keys typed =
    let down = (process_keys (keydown code) keys).0 in
    let held : ((process_keys keypress down).0).repeat_on ≡ true = ground arith in
    (
      refl,
      ap (λ k. (process_keys keypress k).1) (presses-held n (process_keys keypress down).0 held)
          ∙ keypress-acts (process_keys keypress down).0 held typed,
      refl,
    )

children_of-set_children :
    (es : List Entry) (id : List ℕ) (d e : Display)
    → children_of es id ≡ some d
    → children_of (set_children es id e) id ≡ some e
children_of-set_children [] id d e at = absurd (ground (arith, at))
children_of-set_children (x ∷ es) id d e at = ground (arith, children_of-set_children es id d e)

-- Toggling the children of a row shows them if they are not shown, and hides them if they are.
pub are_shown-toggle :
    (id : List ℕ) (p : Panel) (d : Display)
    → children_of p.entries id ≡ some d
    → are_shown (children_of (toggle id p).entries id) ≡ not (is_shown d)
unfolding toggle
are_shown-toggle id p d at =
    ground (arith, children_of-set_children p.entries id d (if is_shown d then hidden else shown))

-- Up, where rows that are not shown stand between the item and the one that is found: if the children
-- of the row found are shown, the focus goes to the last child of the row just before the item, a row
-- that is not shown, though the row found is.
pub nav_move-astray :
    (index found n : ℕ) (p : Panel)
    → index ≤ length (rows_of p.entries)
    → nav_prev (rows_of p.entries) index ≡ some found
    → found + 1 < index
    → are_shown (children_at p.entries found) ≡ true
    → child_count p.entries (index - 1) ≡ n + 1
    → ((nav_move 38 index p).box.focus ≡ result_child (index - 1) n)
      × (row_shown (get_elem? (rows_of p.entries) (index - 1)) ≡ false)
      × (row_shown (get_elem? (rows_of p.entries) found) ≡ true)
unfolding nav_move
nav_move-astray index found n p inside next apart opened some_child =
    let (before, shown_there, hidden_between) =
      subst (PrevIs (rows_of p.entries) index) next
        (nav_prev-PrevIs (rows_of p.entries) index inside) in
    (ground arith, hidden_between (index - 1) (omega arith) (omega arith), shown_there)
