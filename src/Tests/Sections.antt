-- ===== src/Tests/Sections.antt =====
-- Runs of docs/html/dynsections.js on a small page: elements are numbers, and a document gives each its look.
use tacopie.Prelude.{
  ◌≡◌, refl, ℕ, true, false, not, [], ◌∷◌, ◌++◌, codes, List, if◌then◌else◌, ==_iff, ◌==◌, leb, ltb,
  ◌+◌,
}
use tacopie.DocSections.Query.{
  Query, Look, with_visible, with_class, with_src, with_html, iconfopen, iconfclosed, has_class,
  is_among,
}
use tacopie.DocSections.Toggles.{finished}
use tacopie.DocSections.Folders.{Row, toggle_level, toggle_folder, is_visible, level_of}
use tacopie.DocSearch.Box.{list_eq}
use tacopie.DocSections.Folders.Levels.{toggle_level_lem}
use tacopie.DocSections.Folders.Children.{toggle_folder-twice, children, below}
use tacopie.DocSections.Toggles.{toggle_visibility}
use tacopie.DocSections.Toggles.Turns.{toggle_visibility_lem, IsSection}

abbrev change : (Look → Look) → ℕ → (ℕ → Look) → ℕ → Look
change f e d n = if n == e then f (d n) else d n

-- The elements with an id.
abbrev with_id : List ℕ → List ℕ
with_id id =
    if list_eq id (codes "img_0_0_")
    then 11 ∷ []
    else if list_eq id (codes "dyn-summary")
    then 21 ∷ []
    else if list_eq id (codes "dyn-content")
    then 22 ∷ []
    else if list_eq id (codes "dyn-trigger")
    then 23 ∷ []
    else []

abbrev page : Query ℕ (ℕ → Look)
page = record {
  same = ◌==◌;
  same_iff = ==_iff;
  by_id = with_id;
  look = λ e d. d e;
  show = change (with_visible true);
  hide = change (with_visible false);
  add_class = λ c. change (with_class c true);
  remove_class = λ c. change (with_class c false);
  set_src = λ t. change (with_src t);
  set_html = λ t. change (with_html t);
  look-show = λ e f d. refl;
  look-hide = λ e f d. refl;
  look-add_class = λ c e f d. refl;
  look-remove_class = λ c e f d. refl;
  look-set_src = λ t e f d. refl;
  look-set_html = λ t e f d. refl;
}

-- Everything is visible but the summary.
abbrev document : ℕ → Look
document n = record {
  visible = not (n == 21);
  is_even = false;
  is_opened = true;
  is_closed = false;
  is_iconfopen = true;
  is_iconfclosed = false;
  is_arrow = false;
  src = codes "img/open.png";
  html = [];
}

abbrev top : Row ℕ
top = record { element = 1; id = codes "row_0_"; spans = [] }

abbrev child : Row ℕ
child = record { element = 2; id = codes "row_0_0_"; spans = 11 ∷ [] }

abbrev grandchild : Row ℕ
grandchild = record { element = 3; id = codes "row_0_0_0_"; spans = [] }

toggle_level_example :
    (is_visible page
        (toggle_level page 2 (top ∷ [] ++ child ∷ grandchild ∷ []) document)
        child.element
      ≡ leb (level_of child.id) (2 + 1))
    × (has_class iconfopen
          (page.look 11 (toggle_level page 2 (top ∷ [] ++ child ∷ grandchild ∷ []) document))
        ≡ (if leb (level_of child.id) (2 + 1)
            then ltb (level_of child.id) (2 + 1)
            else has_class iconfopen (page.look 11 document)))
    × (has_class iconfclosed
          (page.look 11 (toggle_level page 2 (top ∷ [] ++ child ∷ grandchild ∷ []) document))
        ≡ (if leb (level_of child.id) (2 + 1)
            then level_of child.id == 2 + 1
            else has_class iconfclosed (page.look 11 document)))
toggle_level_example =
    toggle_level_lem page 2 (top ∷ []) child (grandchild ∷ []) 11 document refl refl refl refl

toggle_folder-twice_example :
    is_visible page
      (toggle_folder page
        (codes "0_")
        (top ∷ child ∷ grandchild ∷ [])
        (toggle_folder page (codes "0_") (top ∷ child ∷ grandchild ∷ []) document))
      3
    ≡ (if is_among page 3 (below page (codes "0_") (top ∷ child ∷ grandchild ∷ []))
        then is_among page 3 (children page (codes "0_") (top ∷ child ∷ grandchild ∷ []))
        else is_visible page document 3)
toggle_folder-twice_example =
    toggle_folder-twice page (codes "0_") (top ∷ child ∷ grandchild ∷ []) document 3 refl

toggle_visibility_example :
    (after : ℕ → Look) × (toggle_visibility page 20 (codes "dyn") document ≡ finished after)
    × IsSection page 20 21 22 23 (codes "img/") (not true) after
toggle_visibility_example =
    toggle_visibility_lem page 20 21 22 23 (codes "dyn") (codes "img/") true document refl refl refl
      refl
      (record {
        shown = refl;
        summarised = refl;
        link_opened = refl;
        link_closed = refl;
        image = refl;
      })
