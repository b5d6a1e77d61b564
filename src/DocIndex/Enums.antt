-- ===== src/DocIndex/Enums.antt =====
-- docs/html/search/enums_0.js and the pages after it.
use tacopie.Prelude.{List, [], ◌∷◌, true}
use tacopie.DocSearch.Panel.{Datum}
use tacopie.DocIndex.{datum, link}

abbrev pub enums_0 : List Datum
enums_0 =
    datum "log_5flevel" "log_level" (
      link "../classtacopie_1_1logger.html#ae7dd235972bbf86a017fc39b3af80efe" true "tacopie::logger"
      ∷ [])
    ∷ []

abbrev pub enums_1 : List Datum
enums_1 =
    datum "type" "type" (
      link "../classtacopie_1_1tcp__socket.html#ad8376e85df96ab9523f5d079ed7172ab" true
        "tacopie::tcp_socket"
      ∷ [])
    ∷ []

-- The pages of the section, in the order of its characters.
abbrev pub enums_pages : List (List Datum)
enums_pages = enums_0 ∷ enums_1 ∷ []
