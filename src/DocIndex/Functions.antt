-- ===== src/DocIndex/Functions.antt =====
-- docs/html/search/functions_0.js and the pages after it, in parts.
pub mod First
pub mod Second
use tacopie.Prelude.{List, [], ◌∷◌}
use tacopie.DocSearch.Panel.{Datum}
use tacopie.DocIndex.Functions.First.{
  functions_0, functions_1, functions_2, functions_3, functions_4, functions_5, functions_6,
  functions_7, functions_8,
}
use tacopie.DocIndex.Functions.Second.{
  functions_9, functions_a, functions_b, functions_c, functions_d, functions_e, functions_f,
}

-- The pages of the section, in the order of its characters.
abbrev pub functions_pages : List (List Datum)
functions_pages =
    functions_0 ∷ functions_1 ∷ functions_2 ∷ functions_3 ∷ functions_4 ∷ functions_5 ∷ functions_6
    ∷ functions_7 ∷ functions_8 ∷ functions_9 ∷ functions_a ∷ functions_b ∷ functions_c
    ∷ functions_d ∷ functions_e ∷ functions_f ∷ []
