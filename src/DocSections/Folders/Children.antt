-- ===== src/DocSections/Folders/Children.antt =====
-- docs/html/dynsections.js, toggleFolder: which rows a click on a folder hides and shows.
use tacopie.Prelude.{
  ℕ, ◌≡◌, refl, Bool, true, false, not, ◌&&◌, ◌||◌, List, [], ◌∷◌, ◌++◌, if◌then◌else◌, arith, ◌∙◌,
}
use tacopie.DocSections.Query.{
  Query, iconfopen, iconfclosed, arrow, each, filter, is_among, look-each_show, look-each_hide,
  has_class,
}
use tacopie.DocSections.Folders.{
  row_text, spans_of, arrow_down, arrow_right, is_number_end, is_below_id, is_child_id, set_arrows,
  current_spans, rows_after, rows_with, close_icons, elements, hide_below, is_first_visible,
  open_icons, show_children, strip_prefix_matches, toggle_folder, Row, is_visible,
}
use tacopie.DocSearch.Decode.{is_prefix}
use tacopie.DocSections.Folders.Levels.{
  is_visible-set_html, is_visible-remove_class, is_visible-add_class,
}
use tacopie.DocSections.Folders.Stripes.{is_visible-update_stripes}

-- A direct child's id begins with that of the row.
is_child_id-is_below_id :
    (rest : List ℕ → Bool) (xs ys : List ℕ)
    → strip_prefix_matches rest xs ys ≡ true
    → is_prefix xs ys ≡ true
is_child_id-is_below_id rest [] ys h = refl
is_child_id-is_below_id rest (x ∷ xs) [] h = cc
is_child_id-is_below_id rest (x ∷ xs) (y ∷ ys) h =
    ground (arith, is_child_id-is_below_id rest xs ys)

module _ {E D : Type 0} (q : Query E D) (id : List ℕ) where
  abbrev pub children : List (Row E) → List E
  children rows = elements (rows_with (is_child_id id) (rows_after id rows))

  abbrev pub below : List (Row E) → List E
  below rows = elements (rows_with (is_below_id id) (rows_after id rows))

  is_child-is_below :
      (e : E) (rows : List (Row E))
      → is_among q e (elements (rows_with (is_child_id id) rows)) ≡ true
      → is_among q e (elements (rows_with (is_below_id id) rows)) ≡ true
  is_child-is_below e [] h = h
  is_child-is_below e (r ∷ rows) h = ground (
    arith,
    is_child-is_below e rows,
    is_child_id-is_below_id (is_number_end false) (row_text ++ id) r.id,
  )

  is_visible-close_icons :
      (spans : List E) (d : D) (e : E) → is_visible q (close_icons q spans d) e ≡ is_visible q d e
  is_visible-close_icons spans d e =
      let icons = filter (λ f. has_class iconfopen (q.look f d)) spans in
      is_visible-add_class q iconfclosed icons (each (q.remove_class iconfopen) icons d) e
      ∙ is_visible-remove_class q iconfopen icons d e

  is_visible-open_icons :
      (spans : List E) (d : D) (e : E) → is_visible q (open_icons q spans d) e ≡ is_visible q d e
  is_visible-open_icons spans d e =
      let icons = filter (λ f. has_class iconfclosed (q.look f d)) spans in
      is_visible-add_class q iconfopen icons (each (q.remove_class iconfclosed) icons d) e
      ∙ is_visible-remove_class q iconfclosed icons d e

  is_visible-hide_below :
      (rows : List (Row E)) (d : D) (e : E)
      → is_visible q (hide_below q id rows d) e
        ≡ (is_visible q d e && not (is_among q e (below rows)))
  unfolding hide_below
  is_visible-hide_below rows d e =
      let spans = current_spans id rows in
      let closed_icons = close_icons q spans d in
      let arrows = set_arrows q arrow_right spans closed_icons in
      ground (
        arith,
        look-each_hide q (below rows) e arrows,
        is_visible-set_html q arrow_right
            (filter (λ f. has_class arrow (q.look f closed_icons)) spans) closed_icons e,
        is_visible-close_icons spans d e,
      )

  is_visible-show_children :
      (rows : List (Row E)) (d : D) (e : E)
      → is_visible q (show_children q id rows d) e
        ≡ (is_visible q d e || is_among q e (children rows))
  unfolding show_children
  is_visible-show_children rows d e =
      let spans = current_spans id rows in
      let icons = open_icons q spans d in
      let opened = set_arrows q arrow_down spans icons in
      let child_spans = spans_of (rows_with (is_child_id id) (rows_after id rows)) in
      let shut = close_icons q child_spans opened in
      let shut_arrows = set_arrows q arrow_right child_spans shut in
      ground (
        arith,
        look-each_show q (children rows) e shut_arrows,
        is_visible-set_html q arrow_right
            (filter (λ f. has_class arrow (q.look f shut)) child_spans) shut e,
        is_visible-close_icons child_spans opened e,
        is_visible-set_html q arrow_down (filter (λ f. has_class arrow (q.look f icons)) spans)
            icons e,
        is_visible-open_icons spans d e,
      )

  -- A click on a folder whose first child is visible hides every row after it whose id begins with
  -- the folder's, and any other click on a folder shows its direct children. What else is visible stays.
  pub is_visible-toggle_folder :
      (rows : List (Row E)) (d : D) (e : E)
      → is_visible q (toggle_folder q id rows d) e ≡ (
          if is_first_visible q (children rows) d
          then is_visible q d e && not (is_among q e (below rows))
          else is_visible q d e || is_among q e (children rows))
  unfolding toggle_folder
  is_visible-toggle_folder rows d e = ground (
    arith,
    is_visible-update_stripes q rows (hide_below q id rows d) e,
    is_visible-update_stripes q rows (show_children q id rows d) e,
    is_visible-hide_below rows d e,
    is_visible-show_children rows d e,
  )

  is_first_visible-hidden :
      (es : List E) (d : D)
      → ((e : E) → is_among q e es ≡ true → is_visible q d e ≡ false)
      → is_first_visible q es d ≡ false
  is_first_visible-hidden [] d h = refl
  is_first_visible-hidden (e ∷ es) d h = h e (ground (arith, q.same_iff e e))

  -- Two clicks on an open folder, one whose first child is visible, leave its direct children visible,
  -- every other row below it hidden, and whatever else there is as visible as it was.
  pub toggle_folder-twice :
      (rows : List (Row E)) (d : D) (e : E)
      → is_first_visible q (children rows) d ≡ true
      → is_visible q (toggle_folder q id rows (toggle_folder q id rows d)) e
        ≡ (if is_among q e (below rows) then is_among q e (children rows) else is_visible q d e)
  toggle_folder-twice rows d e is_open =
      let closed = toggle_folder q id rows d in
      ground (
        arith,
        is_visible-toggle_folder rows closed e,
        is_visible-toggle_folder rows d e,
        is_first_visible-hidden (children rows) closed (λ f h.
            ground (
              arith,
              is_visible-toggle_folder rows d f,
              is_child-is_below f (rows_after id rows) h,
            )),
        is_child-is_below e (rows_after id rows),
      )
