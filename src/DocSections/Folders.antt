-- ===== src/DocSections/Folders.antt =====
-- docs/html/dynsections.js: updateStripes, toggleLevel and toggleFolder, for the rows of a directory.
-- An id is made of small letters, digits and underscores, as the generator writes it, so that a regular
-- expression with an id in it has no operator from there.
pub mod Stripes
pub mod Children
pub mod Levels
use tacopie.Prelude.{
  codes, ℕ, zero, suc, ◌+◌, ◌≡◌, Bool, true, false, not, ◌&&◌, ◌||◌, List, [], ◌∷◌, ◌++◌,
  if◌then◌else◌, ltb, leb, ◌==◌, count,
}
use tacopie.DocSearch.Box.{list_eq}
use tacopie.DocSearch.Decode.{is_prefix}
use tacopie.DocSections.Query.{
  Query, Look, Class, even, iconfopen, iconfclosed, arrow, has_class, each, filter,
}

-- A row: its element, its id, and the spans below it.
pub record Row (E : Type 0) : Type 0 where
  pub element : E
  pub id : List ℕ
  pub spans : List E

abbrev pub elements : {E : Type 0} → List (Row E) → List E
elements [] = []
elements (r ∷ rows) = r.element ∷ elements rows

-- 'row_', '#img', '#arr', '&#9660;' and '&#9658;'.
abbrev pub row_text : List ℕ
row_text = codes "row_"

abbrev pub img_text : List ℕ
img_text = codes "img"

abbrev pub arr_text : List ℕ
arr_text = codes "arr"

abbrev pub arrow_down : List ℕ
arrow_down = codes "&#9660;"

abbrev pub arrow_right : List ℕ
arrow_right = codes "&#9658;"

-- `id.split('_').length-1`.
abbrev pub level_of : List ℕ → ℕ
level_of id = count (λ c. c == b'_') id

-- `id.substring(3)`.
abbrev pub after_three : List ℕ → List ℕ
after_three (a ∷ b ∷ c ∷ rest) = rest
after_three _ = []

-- `\d+_$`, with the digits begun or not.
abbrev pub is_number_end : Bool → List ℕ → Bool
is_number_end begun [] = false
is_number_end begun (c ∷ []) = begun && c == b'_'
is_number_end begun (c ∷ d ∷ cs) = leb b'0' c && leb c b'9' && is_number_end true (d ∷ cs)

abbrev pub strip_prefix_matches : (List ℕ → Bool) → List ℕ → List ℕ → Bool
strip_prefix_matches rest [] ys = rest ys
strip_prefix_matches rest (x ∷ xs) [] = false
strip_prefix_matches rest (x ∷ xs) (y ∷ ys) = x == y && strip_prefix_matches rest xs ys

-- `id.match('^row_'+id+'\\d+_$')`. The flag for capitals makes no difference to ids without any.
abbrev pub is_child_id : List ℕ → List ℕ → Bool
is_child_id id other = strip_prefix_matches (is_number_end false) (row_text ++ id) other

-- `[id^=row_...]`.
abbrev pub is_below_id : List ℕ → List ℕ → Bool
is_below_id id other = is_prefix (row_text ++ id) other

module _ {E : Type 0} where
  -- Every second element, from the first one if the flag is set: `:even`.
  abbrev pub every_other : Bool → List E → List E
  every_other taken [] = []
  every_other true (e ∷ es) = e ∷ every_other false es
  every_other false (e ∷ es) = every_other true es

  -- `$('#row_'+id)` and `nextAll("tr")`: the clicked row, if there is one, and those after it.
  abbrev pub current_spans : List ℕ → List (Row E) → List E
  current_spans id [] = []
  current_spans id (r ∷ rows) =
      let rest = current_spans id rows in if list_eq r.id (row_text ++ id) then r.spans else rest

  abbrev pub rows_after : List ℕ → List (Row E) → List (Row E)
  rows_after id [] = []
  rows_after id (r ∷ rows) =
      let rest = rows_after id rows in if list_eq r.id (row_text ++ id) then rows else rest

  abbrev pub rows_with : (List ℕ → Bool) → List (Row E) → List (Row E)
  rows_with test rows = filter (λ r. test r.id) rows

  abbrev pub spans_of : List (Row E) → List E
  spans_of [] = []
  spans_of (r ∷ rows) = r.spans ++ spans_of rows

module _ {E D : Type 0} (q : Query E D) where
  abbrev pub is_visible : D → E → Bool
  is_visible d e = (q.look e d).visible

  unfoldable pub update_stripes : List (Row E) → D → D
  update_stripes rows d =
      let plain = each (q.remove_class even) (elements rows) d in
      each (q.add_class even) (every_other true (filter (is_visible plain) (elements rows))) plain

  abbrev pub set_open : List E → D → D
  set_open icons d =
      each (q.add_class iconfopen) icons
        (each (q.remove_class iconfclosed) icons (each (q.remove_class iconfopen) icons d))

  abbrev pub set_closed : List E → D → D
  set_closed icons d =
      each (q.add_class iconfclosed) icons
        (each (q.remove_class iconfopen) icons (each (q.remove_class iconfclosed) icons d))

  -- The body of the loop in `toggleLevel`.
  unfoldable pub level_row : ℕ → Row E → D → D
  level_row level r d =
      let icons = q.by_id (img_text ++ after_three r.id) in
      let arrows = q.by_id (arr_text ++ after_three r.id) in
      if ltb (level_of r.id) (level + 1)
      then q.show r.element (each (q.set_html arrow_down) arrows (set_open icons d))
      else if level_of r.id == level + 1
      then q.show r.element (each (q.set_html arrow_right) arrows (set_closed icons d))
      else q.hide r.element d

  abbrev pub level_rows : ℕ → List (Row E) → D → D
  level_rows level [] d = d
  level_rows level (r ∷ rows) d = level_rows level rows (level_row level r d)

  unfoldable pub toggle_level : ℕ → List (Row E) → D → D
  unfolding update_stripes
  toggle_level level rows d = update_stripes rows (level_rows level rows d)

  -- `filter(':first').is(':visible')`.
  abbrev pub is_first_visible : List E → D → Bool
  is_first_visible [] d = false
  is_first_visible (e ∷ es) d = is_visible d e

  -- Each of these takes the spans of a class at the time of its call.
  abbrev pub close_icons : List E → D → D
  close_icons spans d =
      let icons = filter (λ e. has_class iconfopen (q.look e d)) spans in
      each (q.add_class iconfclosed) icons (each (q.remove_class iconfopen) icons d)

  abbrev pub open_icons : List E → D → D
  open_icons spans d =
      let icons = filter (λ e. has_class iconfclosed (q.look e d)) spans in
      each (q.add_class iconfopen) icons (each (q.remove_class iconfclosed) icons d)

  abbrev pub set_arrows : List ℕ → List E → D → D
  set_arrows text spans d =
      each (q.set_html text) (filter (λ e. has_class arrow (q.look e d)) spans) d

  unfoldable pub hide_below : List ℕ → List (Row E) → D → D
  hide_below id rows d =
      each q.hide (elements (rows_with (is_below_id id) (rows_after id rows)))
        (set_arrows arrow_right (current_spans id rows) (close_icons (current_spans id rows) d))

  unfoldable pub show_children : List ℕ → List (Row E) → D → D
  show_children id rows d =
      let children = rows_with (is_child_id id) (rows_after id rows) in
      let opened =
        set_arrows arrow_down (current_spans id rows) (open_icons (current_spans id rows) d) in
      each q.show (elements children)
        (set_arrows arrow_right (spans_of children) (close_icons (spans_of children) opened))

  unfoldable pub toggle_folder : List ℕ → List (Row E) → D → D
  unfolding hide_below show_children update_stripes
  toggle_folder id rows d =
      if is_first_visible (elements (rows_with (is_child_id id) (rows_after id rows))) d
      then update_stripes rows (hide_below id rows d)
      else update_stripes rows (show_children id rows d)
