-- ===== src/Tests/Pages.antt =====
-- The menu of this project's pages, read back, and a search in its index.
use tacopie.DocSearch.Results
use tacopie.DocIndex.{datum, link}
use tacopie.DocSearch.Results.{row_shown, Page, unset}
use tacopie.DocIndex.Complete.{lower_ascii, name_of}
use tacopie.Prelude.{get_elem?, some, ◌∷◌, take, true, arith, ◌≡◌, refl, [], codes}
use tacopie.DocMenu.{make_tree}
use tacopie.DocMenu.Data.{menudata}
use tacopie.DocMenu.Html.{IsPlain, read, reading, words, links_of}
use tacopie.DocMenu.Html.Reading.{make_tree-links}
use tacopie.DocSearch.Panel.{create_results, Datum, rows_of}
use tacopie.DocIndex.Finding.{search-index_pages, LowersAscii}
use tacopie.DocSearch.Box.Searching.{index_of}
use tacopie.DocIndex.Typedefs.{typedefs_pages, typedefs_4}
use tacopie.DocSearch.Decode.{is_prefix}
use tacopie.DocSearch.Search.{plain_term}

make_tree-links_example :
    read (make_tree (codes "../") menudata) (reading [] (words []) [])
    ≡ reading [] (words []) (links_of (codes "../") menudata)
make_tree-links_example = make_tree-links (codes "../") menudata refl menudata-IsPlain
  where
    menudata-IsPlain : IsPlain menudata
    menudata-IsPlain = ground arith

abbrev task : Datum
task = datum "task_5ft" "task_t" (
    link "../classtacopie_1_1utils_1_1thread__pool.html#a8ae8886fdeaa8e5c0abad12626a47296" true
      "tacopie::utils::thread_pool"
    ∷ [])

abbrev task_page : Page
task_page = record {
  rows = rows_of (create_results typedefs_4);
  searching = unset;
  no_matches = unset;
  last_match_count = 0;
}

lower_ascii-LowersAscii : LowersAscii lower_ascii
lower_ascii-LowersAscii t ascii = refl

search-index_pages_example :
    (index_of (take 1 (name_of task)) 0 (codes "adeot") ≡ some 4)
    × (row_shown
          (get_elem? ((Results.search lower_ascii lower_ascii [] (codes "Ta") task_page).rows) 0)
        ≡ is_prefix (plain_term lower_ascii (codes "Ta")) (name_of task))
unfolding Results.strip_trailing Results.strip_leading
search-index_pages_example =
    search-index_pages lower_ascii lower_ascii [] b'T' (codes "a") task_page 4 4 0 (codes "adeot")
      typedefs_pages typedefs_4 task lower_ascii-LowersAscii refl refl refl refl refl
      (omega arith, (omega arith, tt))
