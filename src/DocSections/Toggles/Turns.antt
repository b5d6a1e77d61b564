-- ===== src/DocSections/Toggles/Turns.antt =====
-- docs/html/dynsections.js: a section turns between open and closed.
use tacopie.Prelude.{
  ℕ, ◌≡◌, ap, Bool, true, false, not, ◌&&◌, ◌||◌, List, [], ◌∷◌, ◌++◌, if◌then◌else◌, arith, length,
  take, take-append, length-append, ◌∙◌,
}
use tacopie.DocSections.Query.{
  Query, opened, closed, each, is_among, look-each_show, look-each_hide,
}
use tacopie.DocSections.Folders.{is_visible, is_first_visible}
use tacopie.DocSections.Toggles.{
  trigger_text, content_text, summary_text, toggle_visibility, toggle_inherit, swap_ending,
  finished, closed_png, open_png,
}

swap_ending_lem : (stem old new : List ℕ) → swap_ending (length old) new (stem ++ old) ≡ stem ++ new
swap_ending_lem stem old new =
    ap (λ n. take n (stem ++ old) ++ new) (omega (arith, length-append stem old))
    ∙ ap (λ t. t ++ new) (take-append stem old)

abbrev pub image_of : Bool → List ℕ
image_of true = open_png
image_of false = closed_png

module _ {E D : Type 0} (q : Query E D) where
  -- A section that is open or closed, with its image.
  pub record IsSection (link summary content trigger : E) (stem : List ℕ) (is_open : Bool) (d : D)
      : Type 0 where
    pub shown : is_visible q d content ≡ is_open
    pub summarised : is_visible q d summary ≡ not is_open
    pub link_opened : (q.look link d).is_opened ≡ is_open
    pub link_closed : (q.look link d).is_closed ≡ not is_open
    pub image : (q.look trigger d).src ≡ stem ++ image_of is_open

  module _ (link summary content trigger : E) (stem : List ℕ) (d : D) where
    -- What toggleVisibility leaves of an open section, and of a closed one.
    closed_section : D
    closed_section =
        q.set_src (swap_ending 8 closed_png (stem ++ open_png)) trigger
          (q.remove_class opened link (q.add_class closed link (q.show summary (q.hide content d))))

    opened_section : D
    opened_section =
        q.set_src (swap_ending 10 open_png (stem ++ closed_png)) trigger
          (q.add_class opened link (q.remove_class closed link (q.hide summary (q.show content d))))

    look-closed_section :
        (e : E)
        → q.same content summary ≡ false
        → q.look e closed_section ≡ record (q.look e d) {
          visible = q.same e summary || (not (q.same e content) && (q.look e d).visible);
          is_closed = q.same e link || (q.look e d).is_closed;
          is_opened = not (q.same e link) && (q.look e d).is_opened;
          src = if q.same e trigger then stem ++ closed_png else (q.look e d).src;
        }
    unfolding closed_section
    look-closed_section e apart =
        let hid = q.hide content d in
        let shown = q.show summary hid in
        let marked = q.add_class closed link shown in
        let bare = q.remove_class opened link marked in
        ground (
          arith,
          q.look-set_src (swap_ending 8 closed_png (stem ++ open_png)) e trigger bare,
          q.look-remove_class opened e link marked,
          q.look-add_class closed e link shown,
          q.look-show e summary hid,
          q.look-hide e content d,
          swap_ending_lem stem open_png closed_png,
        )

    look-opened_section :
        (e : E)
        → q.same content summary ≡ false
        → q.look e opened_section ≡ record (q.look e d) {
          visible = not (q.same e summary) && (q.same e content || (q.look e d).visible);
          is_closed = not (q.same e link) && (q.look e d).is_closed;
          is_opened = q.same e link || (q.look e d).is_opened;
          src = if q.same e trigger then stem ++ open_png else (q.look e d).src;
        }
    unfolding opened_section
    look-opened_section e apart =
        let shown = q.show content d in
        let hid = q.hide summary shown in
        let bare = q.remove_class closed link hid in
        let marked = q.add_class opened link bare in
        ground (
          arith,
          q.look-set_src (swap_ending 10 open_png (stem ++ closed_png)) e trigger marked,
          q.look-add_class opened e link bare,
          q.look-remove_class closed e link hid,
          q.look-hide e summary shown,
          q.look-show e content d,
          swap_ending_lem stem closed_png open_png,
        )

  -- A click on the link of a section with one summary, one content and one trigger, the content and
  -- the summary not the same element, runs to its end: an open section is then closed, with the image
  -- that says so, and a closed one open.
  pub toggle_visibility_lem :
      (link summary content trigger : E) (base stem : List ℕ) (is_open : Bool) (d : D)
      → q.by_id (base ++ summary_text) ≡ summary ∷ []
      → q.by_id (base ++ content_text) ≡ content ∷ []
      → q.by_id (base ++ trigger_text) ≡ trigger ∷ []
      → q.same content summary ≡ false
      → IsSection link summary content trigger stem is_open d
      → (after : D) × (toggle_visibility q link base d ≡ finished after)
        × IsSection link summary content trigger stem (not is_open) after
  unfolding toggle_visibility closed_section opened_section
  toggle_visibility_lem link summary content trigger base stem true d s c t apart h =
      let look = λ (e : E). look-closed_section link summary content trigger stem d e apart in
      (
        closed_section link summary content trigger stem d,
        ground (arith, s, c, t, h.shown, h.image),
        record {
          shown = ground (arith, look content, q.same_iff content content);
          summarised = ground (arith, look summary, q.same_iff summary summary);
          link_opened = ground (arith, look link, q.same_iff link link);
          link_closed = ground (arith, look link, q.same_iff link link);
          image = ground (arith, look trigger, q.same_iff trigger trigger);
        },
      )
  toggle_visibility_lem link summary content trigger base stem false d s c t apart h =
      let look = λ (e : E). look-opened_section link summary content trigger stem d e apart in
      (
        opened_section link summary content trigger stem d,
        ground (arith, s, c, t, h.shown, h.image),
        record {
          shown = ground (arith, look content, q.same_iff content content);
          summarised = ground (arith, look summary, q.same_iff summary summary);
          link_opened = ground (arith, look link, q.same_iff link link);
          link_closed = ground (arith, look link, q.same_iff link link);
          image = ground (arith, look trigger, q.same_iff trigger trigger);
        },
      )

  -- A click on a header of inherited members, with an image whose file is named for its state, runs
  -- to its end: if the first row of members is visible, every row is hidden, else every row is shown,
  -- and the image follows. Nothing else changes.
  pub toggle_inherit_lem :
      (rows : List E) (image : E) (stem : List ℕ) (is_open : Bool) (d : D)
      → is_first_visible q rows d ≡ is_open
      → (q.look image d).src ≡ stem ++ image_of is_open
      → (after : D) × (toggle_inherit q rows (image ∷ []) d ≡ finished after)
        × ((e : E)
            → q.look e after ≡ record (q.look e d) {
              visible = if is_among q e rows then not is_open else (q.look e d).visible;
              src = if q.same e image then stem ++ image_of (not is_open) else (q.look e d).src;
            })
  unfolding toggle_inherit
  toggle_inherit_lem rows image stem true d first named =
      let turned = each q.hide rows d in
      let src = swap_ending 8 closed_png (stem ++ open_png) in
      (
        q.set_src src image turned,
        ground (arith, first, named),
        λ e. ground (
          arith,
          q.look-set_src src e image turned,
          look-each_hide q rows e d,
          swap_ending_lem stem open_png closed_png,
        ),
      )
  toggle_inherit_lem rows image stem false d first named =
      let turned = each q.show rows d in
      let src = swap_ending 10 open_png (stem ++ closed_png) in
      (
        q.set_src src image turned,
        ground (arith, first, named),
        λ e. ground (
          arith,
          q.look-set_src src e image turned,
          look-each_show q rows e d,
          swap_ending_lem stem closed_png open_png,
        ),
      )
