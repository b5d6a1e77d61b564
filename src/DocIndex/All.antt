-- ===== src/DocIndex/All.antt =====
-- docs/html/search/all_0.js and the pages after it, in parts.
pub mod First
pub mod Second
pub mod Third
use tacopie.Prelude.{List, [], ◌∷◌}
use tacopie.DocSearch.Panel.{Datum}
use tacopie.DocIndex.All.First.{all_0, all_1, all_2, all_3, all_4, all_5, all_6, all_7, all_8}
use tacopie.DocIndex.All.Second.{all_9, all_a, all_b, all_c, all_d}
use tacopie.DocIndex.All.Third.{all_e, all_f}

-- The pages of the section, in the order of its characters.
abbrev pub all_pages : List (List Datum)
all_pages =
    all_0 ∷ all_1 ∷ all_2 ∷ all_3 ∷ all_4 ∷ all_5 ∷ all_6 ∷ all_7 ∷ all_8 ∷ all_9 ∷ all_a ∷ all_b
    ∷ all_c ∷ all_d ∷ all_e ∷ all_f ∷ []
