-- ===== src/DocSections/Toggles.antt =====
-- docs/html/dynsections.js: toggleVisibility and toggleInherit, with the image that they turn.
pub mod Turns
use tacopie.Prelude.{
  codes, ℕ, zero, suc, ◌+◌, ◌-◌, ◌≡◌, refl, ap, Bool, true, false, not, ◌&&◌, ◌||◌, List, [], ◌∷◌,
  ◌++◌, Option, none, some, if◌then◌else◌, arith, length, take, take-append, length-append, sym,
  ◌∙◌, Bool-cases, inl, inr,
}
use tacopie.DocSections.Query.{
  Query, Look, Class, opened, closed, each, is_among, look-each_show, look-each_hide,
  look-each_set_src,
}
use tacopie.DocSections.Folders.{is_visible, is_first_visible}

-- 'closed.png', 'open.png', '-summary', '-content' and '-trigger'.
abbrev pub closed_png : List ℕ
closed_png = codes "closed.png"

abbrev pub open_png : List ℕ
open_png = codes "open.png"

abbrev pub summary_text : List ℕ
summary_text = codes "-summary"

abbrev pub content_text : List ℕ
content_text = codes "-content"

abbrev pub trigger_text : List ℕ
trigger_text = codes "-trigger"

-- How a handler ends: on its last line, or by an exception that nothing catches.
pub data Ran (D : Type 0) : Type 0 where
  finished : D → Ran D
  thrown : D → Ran D

-- `src.substring(0,src.length-cut)+ending`. A negative end counts as 0.
abbrev pub swap_ending : ℕ → List ℕ → List ℕ → List ℕ
swap_ending cut ending src = take (length src - cut) src ++ ending

module _ {E D : Type 0} (q : Query E D) where
  -- `attr('src')`: that of the first element, and `undefined` if there is none.
  abbrev pub first_src : List E → D → Option (List ℕ)
  first_src [] d = none
  first_src (e ∷ es) d = some ((q.look e d).src)

  -- `attr('src', …)`. Its argument is evaluated first, and `undefined` has no `substring`.
  abbrev pub turn_image : ℕ → List ℕ → List E → Option (List ℕ) → D → Ran D
  turn_image cut ending images none d = thrown d
  turn_image cut ending images (some src) d =
      finished (each (q.set_src (swap_ending cut ending src)) images d)

  -- `is(':visible')`: whether one of the elements is.
  abbrev pub is_any_visible : List E → D → Bool
  is_any_visible [] d = false
  is_any_visible (e ∷ es) d = is_visible q d e || is_any_visible es d

  -- The link, and its id.
  unfoldable pub toggle_visibility : E → List ℕ → D → Ran D
  toggle_visibility link base d =
      let summary = q.by_id (base ++ summary_text) in
      let content = q.by_id (base ++ content_text) in
      let trigger = q.by_id (base ++ trigger_text) in
      let src = first_src trigger d in
      if is_any_visible content d
      then turn_image 8 closed_png trigger src (
          q.remove_class opened link
            (q.add_class closed link (each q.show summary (each q.hide content d))))
      else turn_image 10 open_png trigger src (
          q.add_class opened link
            (q.remove_class closed link (each q.hide summary (each q.show content d))))

  -- The rows `$('tr.inherit.'+id)` and the images `$('tr.inherit_header.'+id+' img')`.
  unfoldable pub toggle_inherit : List E → List E → D → Ran D
  toggle_inherit rows images d =
      let src = first_src images d in
      if is_first_visible q rows d
      then turn_image 8 closed_png images src (each q.hide rows d)
      else turn_image 10 open_png images src (each q.show rows d)
