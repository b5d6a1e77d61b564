-- ===== src/DocSections/Folders/Levels.antt =====
-- docs/html/dynsections.js, toggleLevel: which rows are shown, and with which icon.
use tacopie.Prelude.{
  ℕ, ◌+◌, ◌≡◌, refl, ap, true, false, ◌&&◌, ◌||◌, List, [], ◌∷◌, ◌++◌, if◌then◌else◌, ◌==◌, arith,
  ltb, leb,
}
use tacopie.DocSections.Query.{
  arrow, closed, opened, Query, Class, even, iconfopen, iconfclosed, each, is_among, with_class,
  look-each_add_class, look-each_remove_class, look-each_set_html, has_class,
}
use tacopie.DocSections.Folders.{
  elements, arrow_right, arrow_down, arr_text, Row, level_row, level_rows, toggle_level, set_open,
  set_closed, is_visible, img_text, after_three, level_of,
}
use tacopie.DocSections.Folders.Stripes.{is_visible-update_stripes, look-striped}

module _ {E D : Type 0} (q : Query E D) where
  -- Changes of classes and texts leave visible what is visible.
  pub is_visible-add_class :
      (c : Class) (es : List E) (d : D) (e : E)
      → is_visible q (each (q.add_class c) es d) e ≡ is_visible q d e
  is_visible-add_class even es d e = ground (arith, look-each_add_class q even es e d)
  is_visible-add_class opened es d e = ground (arith, look-each_add_class q opened es e d)
  is_visible-add_class closed es d e = ground (arith, look-each_add_class q closed es e d)
  is_visible-add_class iconfopen es d e = ground (arith, look-each_add_class q iconfopen es e d)
  is_visible-add_class iconfclosed es d e = ground (arith, look-each_add_class q iconfclosed es e d)
  is_visible-add_class arrow es d e = ground (arith, look-each_add_class q arrow es e d)

  pub is_visible-remove_class :
      (c : Class) (es : List E) (d : D) (e : E)
      → is_visible q (each (q.remove_class c) es d) e ≡ is_visible q d e
  is_visible-remove_class even es d e = ground (arith, look-each_remove_class q even es e d)
  is_visible-remove_class opened es d e = ground (arith, look-each_remove_class q opened es e d)
  is_visible-remove_class closed es d e = ground (arith, look-each_remove_class q closed es e d)
  is_visible-remove_class iconfopen es d e =
      ground (arith, look-each_remove_class q iconfopen es e d)
  is_visible-remove_class iconfclosed es d e =
      ground (arith, look-each_remove_class q iconfclosed es e d)
  is_visible-remove_class arrow es d e = ground (arith, look-each_remove_class q arrow es e d)

  pub is_visible-set_html :
      (t : List ℕ) (es : List E) (d : D) (e : E)
      → is_visible q (each (q.set_html t) es d) e ≡ is_visible q d e
  is_visible-set_html t es d e = ground (arith, look-each_set_html q t es e d)

  -- The icon that a selection gets, in one step.
  look-set_open :
      (es : List E) (e : E) (d : D)
      → q.look e (set_open q es d) ≡ (
          if is_among q e es
          then with_class iconfopen true (with_class iconfclosed false (q.look e d))
          else q.look e d)
  look-set_open es e d =
      let bare = each (q.remove_class iconfopen) es d in
      let plain = each (q.remove_class iconfclosed) es bare in
      ground (
        arith,
        look-each_add_class q iconfopen es e plain,
        look-each_remove_class q iconfclosed es e bare,
        look-each_remove_class q iconfopen es e d,
      )

  look-set_closed :
      (es : List E) (e : E) (d : D)
      → q.look e (set_closed q es d) ≡ (
          if is_among q e es
          then with_class iconfclosed true (with_class iconfopen false (q.look e d))
          else q.look e d)
  look-set_closed es e d =
      let bare = each (q.remove_class iconfclosed) es d in
      let plain = each (q.remove_class iconfopen) es bare in
      ground (
        arith,
        look-each_add_class q iconfclosed es e plain,
        look-each_remove_class q iconfopen es e bare,
        look-each_remove_class q iconfclosed es e d,
      )

  abbrev pub icons_of : Row E → List E
  icons_of r = q.by_id (img_text ++ after_three r.id)

  level_row_lem :
      (level : ℕ) (r : Row E) (e : E) (d : D)
      → (is_visible q (level_row q level r d) e
          ≡ (if q.same e r.element then leb (level_of r.id) (level + 1) else is_visible q d e))
        × (has_class iconfopen (q.look e (level_row q level r d)) ≡ (
            if is_among q e (icons_of r) && leb (level_of r.id) (level + 1)
            then ltb (level_of r.id) (level + 1)
            else has_class iconfopen (q.look e d)))
        × (has_class iconfclosed (q.look e (level_row q level r d)) ≡ (
            if is_among q e (icons_of r) && leb (level_of r.id) (level + 1)
            then level_of r.id == level + 1
            else has_class iconfclosed (q.look e d)))
  unfolding level_row
  level_row_lem level r e d =
      let icons = icons_of r in
      let arrows = q.by_id (arr_text ++ after_three r.id) in
      let down = each (q.set_html arrow_down) arrows (set_open q icons d) in
      let right = each (q.set_html arrow_right) arrows (set_closed q icons d) in
      let shown = look-set_open icons e d in
      let folded = look-set_closed icons e d in
      let shown_arrows = look-each_set_html q arrow_down arrows e (set_open q icons d) in
      let folded_arrows = look-each_set_html q arrow_right arrows e (set_closed q icons d) in
      (
        ground (
          arith,
          shown,
          folded,
          shown_arrows,
          folded_arrows,
          q.look-show e r.element down,
          q.look-show e r.element right,
          q.look-hide e r.element d,
        ),
        ground (
          arith,
          shown,
          folded,
          shown_arrows,
          folded_arrows,
          q.look-show e r.element down,
          q.look-show e r.element right,
          q.look-hide e r.element d,
        ),
        ground (
          arith,
          shown,
          folded,
          shown_arrows,
          folded_arrows,
          q.look-show e r.element down,
          q.look-show e r.element right,
          q.look-hide e r.element d,
        ),
      )

  abbrev pub all_icons : List (Row E) → List E
  all_icons [] = []
  all_icons (r ∷ rows) = icons_of r ++ all_icons rows

  is_among-append :
      (e : E) (es fs : List E) → is_among q e (es ++ fs) ≡ (is_among q e es || is_among q e fs)
  is_among-append e [] fs = refl
  is_among-append e (x ∷ es) fs = ground (arith, is_among-append e es fs)

  level_rows-append :
      (level : ℕ) (before : List (Row E)) (r : Row E) (behind : List (Row E)) (d : D)
      → level_rows q level (before ++ r ∷ behind) d
        ≡ level_rows q level behind (level_row q level r (level_rows q level before d))
  level_rows-append level [] r behind d = refl
  level_rows-append level (x ∷ before) r behind d =
      level_rows-append level before r behind (level_row q level x d)

  -- The other rows leave an element and an icon as they are.
  level_rows-visible :
      (level : ℕ) (rows : List (Row E)) (e : E) (d : D)
      → is_among q e (elements rows) ≡ false
      → is_visible q (level_rows q level rows d) e ≡ is_visible q d e
  level_rows-visible level [] e d h = refl
  level_rows-visible level (r ∷ rows) e d h = ground (
    arith,
    level_rows-visible level rows e (level_row q level r d),
    (level_row_lem level r e d).0,
  )

  level_rows-icon :
      (level : ℕ) (rows : List (Row E)) (i : E) (d : D)
      → is_among q i (all_icons rows) ≡ false
      → (has_class iconfopen (q.look i (level_rows q level rows d))
          ≡ has_class iconfopen (q.look i d))
        × (has_class iconfclosed (q.look i (level_rows q level rows d))
            ≡ has_class iconfclosed (q.look i d))
  level_rows-icon level [] i d h = (refl, refl)
  level_rows-icon level (r ∷ rows) i d h = ground (
    arith,
    level_rows-icon level rows i (level_row q level r d),
    (level_row_lem level r i d).1,
    (level_row_lem level r i d).2,
    is_among-append i (icons_of r) (all_icons rows),
  )

  -- After toggleLevel, a row of the directory is visible exactly if its id has at most as many levels
  -- as the number that was clicked and one more. An icon of such a row is open if the row is above the
  -- last level shown, and closed on it; the icons of the rows that are hidden stay as they were. The
  -- row's element is that of no later row, and the icon that of no other row.
  pub toggle_level_lem :
      (level : ℕ) (before : List (Row E)) (r : Row E) (behind : List (Row E)) (i : E) (d : D)
      → is_among q r.element (elements behind) ≡ false
      → is_among q i (icons_of r) ≡ true
      → is_among q i (all_icons before) ≡ false
      → is_among q i (all_icons behind) ≡ false
      → (is_visible q (toggle_level q level (before ++ r ∷ behind) d) r.element
          ≡ leb (level_of r.id) (level + 1))
        × (has_class iconfopen (q.look i (toggle_level q level (before ++ r ∷ behind) d)) ≡ (
            if leb (level_of r.id) (level + 1)
            then ltb (level_of r.id) (level + 1)
            else has_class iconfopen (q.look i d)))
        × (has_class iconfclosed (q.look i (toggle_level q level (before ++ r ∷ behind) d)) ≡ (
            if leb (level_of r.id) (level + 1)
            then level_of r.id == level + 1
            else has_class iconfclosed (q.look i d)))
  unfolding toggle_level
  toggle_level_lem level before r behind i d alone icon icon_before icon_behind =
      let rows = before ++ r ∷ behind in
      let first = level_rows q level before d in
      let here = level_row q level r first in
      let shown = level_rows q level rows d in
      let parts = level_rows-append level before r behind d in
      let look_parts = ap (q.look i) parts in
      let here_icon = level_row_lem level r i first in
      let behind_icon = level_rows-icon level behind i here icon_behind in
      let before_icon = level_rows-icon level before i d icon_before in
      let striped = look-striped q rows shown i in
      (
        ground (
          arith,
          is_visible-update_stripes q rows shown r.element,
          ap (λ x. is_visible q x r.element) parts,
          level_rows-visible level behind r.element here alone,
          (level_row_lem level r r.element first).0,
          q.same_iff r.element r.element,
        ),
        ground (arith, striped, look_parts, here_icon.1, behind_icon.0, before_icon.0, icon),
        ground (arith, striped, look_parts, here_icon.2, behind_icon.1, before_icon.1, icon),
      )
