-- ===== src/DocIndex/Complete.antt =====
-- The search of docs/html/search/search.js over the index of this project: an entry is on the page
-- that is opened for its name, and is found there by its name.
use tacopie.Prelude.{
  sym, ℕ, zero, suc, ◌+◌, ◌≡◌, refl, ap, ◌∙◌, Bool, true, false, ◌&&◌, List, [], ◌∷◌, ◌++◌, Option,
  none, some, codes, get_elem?, take, arith, ltb, leb, if◌then◌else◌, ◌==◌, &&_cases,
}
use tacopie.DocSearch.Ids.{convert_to_id, convert_char, to_hex}
use tacopie.DocSearch.Decode.{is_prefix}
use tacopie.DocSearch.Box.{list_eq}
use tacopie.DocSearch.Box.Searching.{index_of}
use tacopie.DocSearch.Panel.{Datum}
use tacopie.DocSearch.Start.{sections_with_content}
use tacopie.DocIndex.All.{all_pages}
use tacopie.DocIndex.Classes.{classes_pages}
use tacopie.DocIndex.Functions.{functions_pages}
use tacopie.DocIndex.Variables.{variables_pages}
use tacopie.DocIndex.Typedefs.{typedefs_pages}
use tacopie.DocIndex.Enums.{enums_pages}

-- The sections, in the order of indexSectionNames.
abbrev pub index_pages : List (List (List Datum))
index_pages =
    all_pages ∷ classes_pages ∷ functions_pages ∷ variables_pages ∷ typedefs_pages ∷ enums_pages
    ∷ []

abbrev pub lower_ascii : List ℕ → List ℕ
lower_ascii [] = []
lower_ascii (c ∷ cs) = (if leb b'A' c && leb c b'Z' then c + 32 else c) ∷ lower_ascii cs

abbrev pub is_ascii : List ℕ → Bool
is_ascii [] = true
is_ascii (c ∷ cs) = ltb c 128 && is_ascii cs

-- A text as a browser shows it: `&lt;` is the one entity in the names of the index. The number is how
-- many characters of an entity are still to be passed over.
abbrev pub shown_text : ℕ → List ℕ → List ℕ
shown_text skip [] = []
shown_text (suc skip) (c ∷ cs) = shown_text skip cs
shown_text zero (c ∷ cs) =
    let is_lt = is_prefix (codes "&lt;") (c ∷ cs) in
    (if is_lt then b'<' else c) ∷ shown_text (if is_lt then 3 else 0) cs

-- The name of an entry as a search sees it.
abbrev pub name_of : Datum → List ℕ
name_of d = lower_ascii (shown_text 0 d.name)

abbrev pub is_at : Option ℕ → ℕ → Bool
is_at none k = false
is_at (some n) k = n == k

-- What is checked of each entry of a page.
unfoldable pub is_good : List ℕ → ℕ → Datum → Bool
is_good chars k d =
    is_at (index_of (take 1 (name_of d)) 0 chars) k
    && list_eq (lower_ascii (codes "SR_" ++ d.id)) (codes "sr_" ++ convert_to_id (name_of d))
    && is_ascii (codes "SR_" ++ d.id)
    && is_ascii (name_of d)

all_good : List ℕ → ℕ → List Datum → Bool
all_good chars k [] = true
all_good chars k (d ∷ ds) = is_good chars k d && all_good chars k ds

good_pages : List ℕ → ℕ → List (List Datum) → Bool
good_pages chars k [] = true
good_pages chars k (page ∷ pages) = all_good chars k page && good_pages chars (suc k) pages

good_sections : List (List ℕ) → List (List (List Datum)) → Bool
good_sections [] [] = true
good_sections (chars ∷ rest) (pages ∷ sections) =
    good_pages chars 0 pages && good_sections rest sections
good_sections _ _ = false

index-good : good_sections sections_with_content index_pages ≡ true
unfolding good_sections good_pages all_good is_good index_of convert_to_id convert_char to_hex
index-good = refl

all_good-entry :
    (chars : List ℕ) (k i : ℕ) (ds : List Datum) (d : Datum)
    → all_good chars k ds ≡ true
    → get_elem? ds i ≡ some d
    → is_good chars k d ≡ true
unfolding all_good
all_good-entry chars k i [] d h at = absurd (ground (arith, at))
all_good-entry chars k zero (x ∷ ds) d h at =
    let both = &&_cases (is_good chars k x) (all_good chars k ds) h in ground (arith, at, both)
all_good-entry chars k (suc i) (x ∷ ds) d h at =
    all_good-entry chars k i ds d (&&_cases (is_good chars k x) (all_good chars k ds) h).1 at

zero_plus : (n : ℕ) → 0 + n ≡ n
zero_plus n = omega arith

n_plus_zero : (n : ℕ) → n + 0 ≡ n
n_plus_zero n = omega arith

good_pages-page :
    (chars : List ℕ) (k n : ℕ) (pages : List (List Datum)) (page : List Datum)
    → good_pages chars n pages ≡ true
    → get_elem? pages k ≡ some page
    → all_good chars (n + k) page ≡ true
unfolding good_pages
good_pages-page chars k n [] page h at = absurd (ground (arith, at))
good_pages-page chars zero n (x ∷ pages) page h at =
    let both = &&_cases (all_good chars n x) (good_pages chars (suc n) pages) h in
    ground (arith, at, both.0, ap (λ m. all_good chars m page) (n_plus_zero n))
good_pages-page chars (suc k) n (x ∷ pages) page h at =
    let both = &&_cases (all_good chars n x) (good_pages chars (suc n) pages) h in
    ap (λ m. all_good chars m page) (omega arith)
    ∙ good_pages-page chars k (suc n) pages page both.1 at

good_sections-pages :
    (chars_of : List (List ℕ)) (sections : List (List (List Datum))) (s : ℕ) (chars : List ℕ)
    (pages : List (List Datum))
    → good_sections chars_of sections ≡ true
    → get_elem? chars_of s ≡ some chars
    → get_elem? sections s ≡ some pages
    → good_pages chars 0 pages ≡ true
unfolding good_sections
good_sections-pages [] [] s chars pages h at at' = absurd (ground (arith, at))
good_sections-pages [] (q ∷ qs) s chars pages h at at' = absurd (ground (arith, at))
good_sections-pages (c ∷ cs) [] s chars pages h at at' = absurd (ground (arith, at'))
good_sections-pages (c ∷ cs) (q ∷ qs) zero chars pages h at at' =
    let both = &&_cases (good_pages c 0 q) (good_sections cs qs) h in
    ground (arith, at, at', both.0)
good_sections-pages (c ∷ cs) (q ∷ qs) (suc s) chars pages h at at' =
    good_sections-pages cs qs s chars pages (&&_cases (good_pages c 0 q) (good_sections cs qs) h).1
      at at'

-- Each entry of the index is as it is checked.
pub entry-is_good :
    (s k i : ℕ) (chars : List ℕ) (pages : List (List Datum)) (page : List Datum) (d : Datum)
    → get_elem? sections_with_content s ≡ some chars
    → get_elem? index_pages s ≡ some pages
    → get_elem? pages k ≡ some page
    → get_elem? page i ≡ some d
    → is_good chars k d ≡ true
entry-is_good s k i chars pages page d at_chars at_pages at_page at =
    all_good-entry chars k i page d
      (sym (ap (λ m. all_good chars m page) (zero_plus k))
        ∙ good_pages-page chars k 0 pages page
            (good_sections-pages sections_with_content index_pages s chars pages index-good at_chars
              at_pages)
            at_page)
      at
