-- ===== src/DocMenu/Html.antt =====
-- What a reader of HTML makes of the menu of docs/html/menu.js: elements that are nested, the values
-- of their attributes and the words between them.
pub mod Reading
use tacopie.Prelude.{
  ℕ, ◌≡◌, refl, ap, ◌∙◌, sym, Bool, true, false, ◌&&◌, ◌||◌, List, [], ◌∷◌, ◌++◌, codes,
  if◌then◌else◌, ◌==◌, arith, Bool-cases, inl, inr,
}
use mathlib.Core.List.{append_assoc, append-nil}
use tacopie.DocMenu.{
  Entry, entry, Children, absent, children, Entries, nil, cons, make_tree, make_items, make_item,
}
use tacopie.DocSearch.Box.{list_eq}
use tacopie.DocSearch.Results.{is_empty}

-- Where the reader stands: among words, in the name of a tag, behind a name, in a value, in the name
-- of an end tag, or at an end tag that closes nothing.
pub data Mode : Type 0 where
  words : List ℕ → Mode
  opening : List ℕ → Mode
  attributes : List ℕ → Mode
  value : List ℕ → List ℕ → Mode
  closing : List ℕ → Mode
  broken : Mode

pub data Found : Type 0 where
  link : List ℕ → Found
  said : List ℕ → Found

-- The names of the elements round the reader, the innermost first, and what it has found.
pub data Reader : Type 0 where
  reading : List (List ℕ) → Mode → List Found → Reader

abbrev pub log_words : List ℕ → List Found → List Found
log_words [] found = found
log_words (c ∷ cs) found = found ++ said (c ∷ cs) ∷ []

abbrev pub close : List ℕ → List (List ℕ) → List Found → Reader
close name [] found = reading [] broken found
close name (inner ∷ outer) found =
    if list_eq name inner
    then reading outer (words []) found
    else reading (inner ∷ outer) broken found

abbrev pub read_char : ℕ → Reader → Reader
read_char c (reading stack (words acc) found) =
    if c == b'<'
    then reading stack (opening []) (log_words acc found)
    else reading stack (words (acc ++ c ∷ [])) found
read_char c (reading stack (opening name) found) =
    if c == b'>'
    then reading (name ∷ stack) (words []) found
    else if c == b' '
    then reading stack (attributes name) found
    else if c == b'/' && is_empty name
    then reading stack (closing []) found
    else reading stack (opening (name ++ c ∷ [])) found
read_char c (reading stack (attributes name) found) =
    if c == b'"'
    then reading stack (value name []) found
    else if c == b'>'
    then reading (name ∷ stack) (words []) found
    else reading stack (attributes name) found
read_char c (reading stack (value name acc) found) =
    if c == b'"'
    then reading stack (attributes name) (found ++ link acc ∷ [])
    else reading stack (value name (acc ++ c ∷ [])) found
read_char c (reading stack (closing name) found) =
    if c == b'>' then close name stack found else reading stack (closing (name ++ c ∷ [])) found
read_char c (reading stack broken found) = reading stack broken found

abbrev pub read : List ℕ → Reader → Reader
read [] r = r
read (c ∷ cs) r = read cs (read_char c r)

abbrev pub is_free_of : ℕ → List ℕ → Bool
is_free_of c [] = true
is_free_of c (x ∷ xs) = (if x == c then false else true) && is_free_of c xs

-- The links of a menu, each with its words, in the order of the menu.
abbrev mutual
  pub links_of : List ℕ → Children → List Found
  links_of rel absent = []
  links_of rel (children entries) = links_of_entries rel entries

  pub links_of_entries : List ℕ → Entries → List Found
  links_of_entries rel nil = []
  links_of_entries rel (cons e entries) = links_of_entry rel e ++ links_of_entries rel entries

  pub links_of_entry : List ℕ → Entry → List Found
  links_of_entry rel (entry text url below) =
      link (rel ++ url) ∷ (log_words text [] ++ links_of rel below)

-- No address of a menu has a quote, and no text has the sign that begins a tag.
abbrev mutual
  pub IsPlain : Children → Type 0
  IsPlain absent = Unit
  IsPlain (children entries) = IsPlainEntries entries

  pub IsPlainEntries : Entries → Type 0
  IsPlainEntries nil = Unit
  IsPlainEntries (cons e entries) = IsPlainEntry e × IsPlainEntries entries

  pub IsPlainEntry : Entry → Type 0
  IsPlainEntry (entry text url below) =
      (is_free_of b'<' text ≡ true) × (is_free_of b'"' url ≡ true) × IsPlain below
