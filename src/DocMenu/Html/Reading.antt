-- ===== src/DocMenu/Html/Reading.antt =====
-- A reader of the menu of docs/html/menu.js finds its links.
use tacopie.Prelude.{
  ℕ, ◌≡◌, refl, ap, ◌∙◌, sym, true, false, List, [], ◌∷◌, ◌++◌, codes, ◌==◌, arith,
}
use mathlib.Core.List.{append_assoc, append-nil}
use tacopie.DocMenu.{
  Entry, entry, Children, absent, children, Entries, nil, cons, make_tree, make_items, make_item,
}
use tacopie.DocMenu.Html.{
  Reader, reading, read, read_char, words, value, Found, link, links_of, links_of_entries,
  links_of_entry, IsPlain, IsPlainEntries, IsPlainEntry, is_free_of, log_words,
}

read-append : (xs ys : List ℕ) (r : Reader) → read (xs ++ ys) r ≡ read ys (read xs r)
read-append [] ys r = refl
read-append (x ∷ xs) ys r = read-append xs ys (read_char x r)

read_char-words :
    (c : ℕ) (acc : List ℕ) (stack : List (List ℕ)) (found : List Found)
    → (c == b'<') ≡ false
    → read_char c (reading stack (words acc) found) ≡ reading stack (words (acc ++ c ∷ [])) found
read_char-words c acc stack found e = rw (e) refl

read-words :
    (t acc more : List ℕ) (stack : List (List ℕ)) (found : List Found)
    → is_free_of b'<' t ≡ true
    → read (t ++ more) (reading stack (words acc) found)
      ≡ read more (reading stack (words (acc ++ t)) found)
read-words [] acc more stack found free =
    ap (λ w. read more (reading stack (words w) found)) (sym (append-nil acc))
read-words (c ∷ t) acc more stack found free =
    ap (read (t ++ more)) (read_char-words c acc stack found (ground arith))
    ∙ read-words t (acc ++ c ∷ []) more stack found (ground arith)
    ∙ ap (λ w. read more (reading stack (words w) found)) (append_assoc acc (c ∷ []) t)

read_char-value :
    (c : ℕ) (acc name : List ℕ) (stack : List (List ℕ)) (found : List Found)
    → (c == b'"') ≡ false
    → read_char c (reading stack (value name acc) found)
      ≡ reading stack (value name (acc ++ c ∷ [])) found
read_char-value c acc name stack found e = rw (e) refl

read-value :
    (t acc more name : List ℕ) (stack : List (List ℕ)) (found : List Found)
    → is_free_of b'"' t ≡ true
    → read (t ++ more) (reading stack (value name acc) found)
      ≡ read more (reading stack (value name (acc ++ t)) found)
read-value [] acc more name stack found free =
    ap (λ w. read more (reading stack (value name w) found)) (sym (append-nil acc))
read-value (c ∷ t) acc more name stack found free =
    ap (read (t ++ more)) (read_char-value c acc name stack found (ground arith))
    ∙ read-value t (acc ++ c ∷ []) more name stack found (ground arith)
    ∙ ap (λ w. read more (reading stack (value name w) found)) (append_assoc acc (c ∷ []) t)

log_words-append : (t : List ℕ) (found : List Found) → log_words t found ≡ found ++ log_words t []
log_words-append [] found = sym (append-nil found)
log_words-append (c ∷ t) found = refl

-- What is found of an entry, put together.
found-entry :
    (t v : List ℕ) (found below : List Found)
    → log_words t (found ++ link v ∷ []) ++ below ≡ found ++ link v ∷ (log_words t [] ++ below)
found-entry t v found below =
    ap (λ l. l ++ below) (log_words-append t (found ++ link v ∷ []))
    ∙ append_assoc (found ++ link v ∷ []) (log_words t []) below
    ∙ append_assoc found (link v ∷ []) (log_words t [] ++ below)

mutual
  unfolding make_tree

  read-make_tree :
      (rel : List ℕ) (menu : Children) (stack : List (List ℕ)) (found : List Found)
      → is_free_of b'"' rel ≡ true
      → IsPlain menu
      → read (make_tree rel menu) (reading stack (words []) found)
        ≡ reading stack (words []) (found ++ links_of rel menu)
  read-make_tree rel absent stack found free plain =
      ap (reading stack (words [])) (sym (append-nil found))
  read-make_tree rel (children entries) stack found free plain =
      read-append (make_items rel entries) (codes "</ul>")
        (reading (codes "ul" ∷ stack) (words []) found)
      ∙ ap (read (codes "</ul>"))
          (read-make_items rel entries (codes "ul" ∷ stack) found free plain)

  read-make_items :
      (rel : List ℕ) (entries : Entries) (stack : List (List ℕ)) (found : List Found)
      → is_free_of b'"' rel ≡ true
      → IsPlainEntries entries
      → read (make_items rel entries) (reading stack (words []) found)
        ≡ reading stack (words []) (found ++ links_of_entries rel entries)
  read-make_items rel nil stack found free plain =
      ap (reading stack (words [])) (sym (append-nil found))
  read-make_items rel (cons e entries) stack found free plain =
      read-append (make_item rel e) (make_items rel entries) (reading stack (words []) found)
      ∙ ap (read (make_items rel entries)) (read-make_item rel e stack found free plain.0)
      ∙ read-make_items rel entries stack (found ++ links_of_entry rel e) free plain.1
      ∙ ap (reading stack (words []))
          (append_assoc found (links_of_entry rel e) (links_of_entries rel entries))

  read-make_item :
      (rel : List ℕ) (e : Entry) (stack : List (List ℕ)) (found : List Found)
      → is_free_of b'"' rel ≡ true
      → IsPlainEntry e
      → read (make_item rel e) (reading stack (words []) found)
        ≡ reading stack (words []) (found ++ links_of_entry rel e)
  read-make_item rel (entry text url below) stack found free plain =
      let after_text = codes "</a>" ++ (make_tree rel below ++ codes "</li>") in
      let after_url = codes "\">" ++ (text ++ after_text) in
      let list_item = codes "li" ∷ stack in
      let with_link = found ++ link (rel ++ url) ∷ [] in
      read-value rel [] (url ++ after_url) (codes "a") list_item found free
      ∙ read-value url rel after_url (codes "a") list_item found plain.1
      ∙ read-words text [] after_text (codes "a" ∷ list_item) with_link plain.0
      ∙ read-append (make_tree rel below) (codes "</li>")
          (reading list_item (words []) (log_words text with_link))
      ∙ ap (read (codes "</li>"))
          (read-make_tree rel below list_item (log_words text with_link) free plain.2)
      ∙ ap (reading stack (words [])) (found-entry text (rel ++ url) found (links_of rel below))

-- A reader of HTML that is given the menu of `makeTree` ends outside of all elements, so that every
-- element is closed within the one that it was opened in, and has found exactly the menu's links, the
-- address of each behind the relative path and before its text, in the order of the menu. The relative
-- path and the addresses have no quote, and no text has the sign that begins a tag.
pub make_tree-links :
    (rel : List ℕ) (menu : Children)
    → is_free_of b'"' rel ≡ true
    → IsPlain menu
    → read (make_tree rel menu) (reading [] (words []) [])
      ≡ reading [] (words []) (links_of rel menu)
make_tree-links rel menu free plain = read-make_tree rel menu [] [] free plain
