-- ===== src/DocIndex/Classes.antt =====
-- docs/html/search/classes_0.js and the pages after it.
use tacopie.Prelude.{List, [], ◌∷◌, true}
use tacopie.DocSearch.Panel.{Datum}
use tacopie.DocIndex.{datum, link}

abbrev pub classes_0 : List Datum
classes_0 =
    datum "io_5fservice" "io_service"
      (link "../classtacopie_1_1io__service.html" true "tacopie" ∷ [])
    ∷ []

abbrev pub classes_1 : List Datum
classes_1 =
    datum "logger" "logger" (link "../classtacopie_1_1logger.html" true "tacopie" ∷ [])
    ∷ datum "logger_5fiface" "logger_iface"
        (link "../classtacopie_1_1logger__iface.html" true "tacopie" ∷ [])
    ∷ []

abbrev pub classes_2 : List Datum
classes_2 =
    datum "read_5frequest" "read_request"
      (link "../structtacopie_1_1tcp__client_1_1read__request.html" true "tacopie::tcp_client" ∷ [])
    ∷ datum "read_5fresult" "read_result" (
        link "../structtacopie_1_1tcp__client_1_1read__result.html" true "tacopie::tcp_client" ∷ [])
    ∷ []

abbrev pub classes_3 : List Datum
classes_3 =
    datum "self_5fpipe" "self_pipe" (link "../classtacopie_1_1self__pipe.html" true "tacopie" ∷ [])
    ∷ []

abbrev pub classes_4 : List Datum
classes_4 =
    datum "tacopie_5ferror" "tacopie_error"
      (link "../classtacopie_1_1tacopie__error.html" true "tacopie" ∷ [])
    ∷ datum "tcp_5fclient" "tcp_client"
        (link "../classtacopie_1_1tcp__client.html" true "tacopie" ∷ [])
    ∷ datum "tcp_5fserver" "tcp_server"
        (link "../classtacopie_1_1tcp__server.html" true "tacopie" ∷ [])
    ∷ datum "tcp_5fsocket" "tcp_socket"
        (link "../classtacopie_1_1tcp__socket.html" true "tacopie" ∷ [])
    ∷ datum "thread_5fpool" "thread_pool"
        (link "../classtacopie_1_1utils_1_1thread__pool.html" true "tacopie::utils" ∷ [])
    ∷ []

abbrev pub classes_5 : List Datum
classes_5 =
    datum "write_5frequest" "write_request" (
      link "../structtacopie_1_1tcp__client_1_1write__request.html" true "tacopie::tcp_client" ∷ [])
    ∷ datum "write_5fresult" "write_result" (
        link "../structtacopie_1_1tcp__client_1_1write__result.html" true "tacopie::tcp_client"
        ∷ [])
    ∷ []

-- The pages of the section, in the order of its characters.
abbrev pub classes_pages : List (List Datum)
classes_pages = classes_0 ∷ classes_1 ∷ classes_2 ∷ classes_3 ∷ classes_4 ∷ classes_5 ∷ []
