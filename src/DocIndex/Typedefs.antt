-- ===== src/DocIndex/Typedefs.antt =====
-- docs/html/search/typedefs_0.js and the pages after it.
use tacopie.Prelude.{List, [], ◌∷◌, true}
use tacopie.DocSearch.Panel.{Datum}
use tacopie.DocIndex.{datum, link}

abbrev pub typedefs_0 : List Datum
typedefs_0 =
    datum "async_5fread_5fcallback_5ft" "async_read_callback_t" (
      link "../classtacopie_1_1tcp__client.html#acdf9dea8bac6c56f7b04ce38b9432322" true
        "tacopie::tcp_client"
      ∷ [])
    ∷ datum "async_5fwrite_5fcallback_5ft" "async_write_callback_t" (
        link "../classtacopie_1_1tcp__client.html#ad48b8c8dff8a77490eb2e3e802c82b97" true
          "tacopie::tcp_client"
        ∷ [])
    ∷ []

abbrev pub typedefs_1 : List Datum
typedefs_1 =
    datum "disconnection_5fhandler_5ft" "disconnection_handler_t" (
      link "../classtacopie_1_1tcp__client.html#aca5df52e5ee6fa673cf212532ada1453" true
        "tacopie::tcp_client"
      ∷ [])
    ∷ []

abbrev pub typedefs_2 : List Datum
typedefs_2 =
    datum "event_5fcallback_5ft" "event_callback_t" (
      link "../classtacopie_1_1io__service.html#abb66850c32d9c724f4418d77bd04bcfd" true
        "tacopie::io_service"
      ∷ [])
    ∷ []

abbrev pub typedefs_3 : List Datum
typedefs_3 =
    datum "on_5fnew_5fconnection_5fcallback_5ft" "on_new_connection_callback_t" (
      link "../classtacopie_1_1tcp__server.html#a103cb4e6fcab00f88a708aabd38b66ff" true
        "tacopie::tcp_server"
      ∷ [])
    ∷ []

abbrev pub typedefs_4 : List Datum
typedefs_4 =
    datum "task_5ft" "task_t" (
      link "../classtacopie_1_1utils_1_1thread__pool.html#a8ae8886fdeaa8e5c0abad12626a47296" true
        "tacopie::utils::thread_pool"
      ∷ [])
    ∷ []

-- The pages of the section, in the order of its characters.
abbrev pub typedefs_pages : List (List Datum)
typedefs_pages = typedefs_0 ∷ typedefs_1 ∷ typedefs_2 ∷ typedefs_3 ∷ typedefs_4 ∷ []
