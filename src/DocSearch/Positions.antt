-- ===== src/DocSearch/Positions.antt =====
-- docs/html/search/search.js: where the windows of the search box stand on the screen (getXPos, getYPos,
-- OnSearchSelectShow and Search). A place is a number of JavaScript, which is a parameter with its
-- operations and the numbers that the code writes.
use tacopie.Prelude.{ℕ, ◌≡◌, ap, ◌∙◌, sym, Bool, true, false, if◌then◌else◌}

-- The numbers: `num` is a literal, and `is_set` the test of one as a condition.
pub record Numbers (N : Type 0) : Type 0 where
  pub num : ℕ → N
  pub plus : N → N → N
  pub minus : N → N → N
  pub is_set : N → Bool

-- An element as a browser lays it out: offsetWidth, offsetHeight, offsetLeft, offsetTop, offsetParent.
-- A chain of parents ends at document.body, or at no element.
pub data Placed (N : Type 0) : Type 0 where
  no_element : Placed N
  body : Placed N
  placed : N → N → N → N → Placed N → Placed N

-- The style that places a window.
pub record Place (N : Type 0) : Type 0 where
  pub left : N
  pub top : N

module _ {N : Type 0} (numbers : Numbers N) where
  -- The search field and the search box, which these are asked of, are not the body.
  abbrev width : Placed N → N
  width no_element = numbers.num 0
  width body = numbers.num 0
  width (placed w h x y parent) = w

  abbrev height : Placed N → N
  height no_element = numbers.num 0
  height body = numbers.num 0
  height (placed w h x y parent) = h

  -- The loops of getXPos and getYPos, with what is added up so far.
  abbrev x_from : N → Placed N → N
  x_from x no_element = x
  x_from x body = x
  x_from x (placed w h left top parent) = x_from (numbers.plus x left) parent

  abbrev y_from : N → Placed N → N
  y_from y no_element = y
  y_from y body = y
  y_from y (placed w h left top parent) = y_from (numbers.plus y top) parent

  abbrev has_width : Placed N → Bool
  has_width no_element = false
  has_width body = false
  has_width (placed w h left top parent) = numbers.is_set w

  -- An element without a width, such as one that is not displayed, is at 0. So is the body.
  unfoldable pub get_x_pos : Placed N → N
  get_x_pos item = if has_width item then x_from (numbers.num 0) item else numbers.num 0

  unfoldable pub get_y_pos : Placed N → N
  get_y_pos item = if has_width item then y_from (numbers.num 0) item else numbers.num 0

  -- The window of the menu below the field, of which the window has a width once it is displayed.
  unfoldable pub select_place : Bool → Placed N → N → Place N
  select_place inside_frame field window_width =
      if inside_frame
      then record {
        left =
            numbers.minus
              (numbers.plus (get_x_pos field) (numbers.plus (width field) (numbers.num 6)))
              window_width;
        top = numbers.plus (get_y_pos field) (height field);
      }
      else record { left = get_x_pos field; top = numbers.plus (get_y_pos field) (height field) }

  -- The window of the results outside a frame, below the search box.
  unfoldable pub results_place : Placed N → N → Place N
  results_place search_box results_width = record {
    left = numbers.minus (numbers.plus (get_x_pos search_box) (numbers.num 150)) results_width;
    top = numbers.plus (get_y_pos search_box) (numbers.num 20);
  }

  -- The width of the results inside a frame.
  abbrev pub results_width_inside : N → N
  results_width_inside client_width = numbers.minus client_width (numbers.num 8)

  -- What the numbers do where no sum is too large to be exact.
  module _
      (plus_assoc : (a b c : N)
        → numbers.plus (numbers.plus a b) c ≡ numbers.plus a (numbers.plus b c))
      (plus_zero : (a : N) → numbers.plus a (numbers.num 0) ≡ a)
      (zero_plus : (a : N) → numbers.plus (numbers.num 0) a ≡ a) where
    x_from-start :
        (x : N) (item : Placed N) → x_from x item ≡ numbers.plus x (x_from (numbers.num 0) item)
    x_from-start x no_element = sym (plus_zero x)
    x_from-start x body = sym (plus_zero x)
    x_from-start x (placed w h left top parent) =
        x_from-start (numbers.plus x left) parent
        ∙ plus_assoc x left (x_from (numbers.num 0) parent)
        ∙ ap (numbers.plus x) (
            sym (x_from-start left parent)
            ∙ ap (λ start. x_from start parent) (sym (zero_plus left)))

    -- An element with a width stands at its offset from a parent with a width.
    get_x_pos-parent :
        (w h left top : N) (parent : Placed N)
        → numbers.is_set w ≡ true
        → has_width parent ≡ true
        → get_x_pos (placed w h left top parent) ≡ numbers.plus left (get_x_pos parent)
    unfolding get_x_pos
    get_x_pos-parent w h left top parent wide parent_wide =
        rw (wide, parent_wide)
          (ap (λ start. x_from start parent) (zero_plus left) ∙ x_from-start left parent)
