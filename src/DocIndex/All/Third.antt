-- ===== src/DocIndex/All/Third.antt =====
-- docs/html/search/all_0.js and the pages after it: all_e to all_f.
use tacopie.Prelude.{List, [], ◌∷◌, true}
use tacopie.DocSearch.Panel.{Datum}
use tacopie.DocIndex.{datum, link}

abbrev pub all_e : List Datum
all_e =
    datum "wait_5ffor_5fremoval" "wait_for_removal" (
      link "../classtacopie_1_1io__service.html#aa57db619baeaa6db0aeb22e67b895cd7" true
        "tacopie::io_service"
      ∷ [])
    ∷ datum "warn" "warn" (
        link "../classtacopie_1_1logger__iface.html#ab96d8f6bc2e2b514c7ceec4c856f8921" true
          "tacopie::logger_iface::warn()"
        ∷ link "../classtacopie_1_1logger.html#aa4cd2ffc3f4b9d096a35c5c2aa8e0970" true
            "tacopie::logger::warn()"
        ∷ [])
    ∷ datum "write_5frequest" "write_request" (
        link "../structtacopie_1_1tcp__client_1_1write__request.html" true "tacopie::tcp_client"
        ∷ [])
    ∷ datum "write_5fresult" "write_result" (
        link "../structtacopie_1_1tcp__client_1_1write__result.html" true "tacopie::tcp_client"
        ∷ [])
    ∷ []

abbrev pub all_f : List Datum
all_f =
    datum "_7eio_5fservice" "~io_service" (
      link "../classtacopie_1_1io__service.html#ae423d7e4b13f07fe41fb051345ffbf8d" true
        "tacopie::io_service"
      ∷ [])
    ∷ datum "_7elogger" "~logger" (
        link "../classtacopie_1_1logger.html#af5c89b85935dbe3b4da3199247d50398" true
          "tacopie::logger"
        ∷ [])
    ∷ datum "_7elogger_5fiface" "~logger_iface" (
        link "../classtacopie_1_1logger__iface.html#a562dcc605198ca90904ba21fa98eb6ea" true
          "tacopie::logger_iface"
        ∷ [])
    ∷ datum "_7eself_5fpipe" "~self_pipe" (
        link "../classtacopie_1_1self__pipe.html#a10a6c4b0d67a4a14abea397a05cee54c" true
          "tacopie::self_pipe"
        ∷ [])
    ∷ datum "_7etacopie_5ferror" "~tacopie_error" (
        link "../classtacopie_1_1tacopie__error.html#a5bf6b0967f7f4cf2b8f8d0a2ef0912b2" true
          "tacopie::tacopie_error"
        ∷ [])
    ∷ datum "_7etcp_5fserver" "~tcp_server" (
        link "../classtacopie_1_1tcp__server.html#a7841dc528e2d3dfc94fbe9b93824da50" true
          "tacopie::tcp_server"
        ∷ [])
    ∷ datum "_7etcp_5fsocket" "~tcp_socket" (
        link "../classtacopie_1_1tcp__socket.html#a4bd737a76a2a326be03d704f79a35282" true
          "tacopie::tcp_socket"
        ∷ [])
    ∷ datum "_7ethread_5fpool" "~thread_pool" (
        link "../classtacopie_1_1utils_1_1thread__pool.html#accddfc6fad613b0c6d407028799abfc5" true
          "tacopie::utils::thread_pool"
        ∷ [])
    ∷ []
