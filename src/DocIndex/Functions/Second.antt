-- ===== src/DocIndex/Functions/Second.antt =====
-- docs/html/search/functions_0.js and the pages after it: functions_9 to functions_f.
use tacopie.Prelude.{List, [], ◌∷◌, true}
use tacopie.DocSearch.Panel.{Datum}
use tacopie.DocIndex.{datum, link}

abbrev pub functions_9 : List Datum
functions_9 =
    datum "operator_21_3d" "operator!=" (
      link "../classtacopie_1_1tcp__client.html#af352b6b1e939c919aec2761517051eb9" true
        "tacopie::tcp_client::operator!=()"
      ∷ link "../classtacopie_1_1tcp__server.html#aa45611b77d60b536aeaf626d1724342d" true
          "tacopie::tcp_server::operator!=()"
      ∷ link "../classtacopie_1_1tcp__socket.html#a76f69612969374b5aa542378d37ee398" true
          "tacopie::tcp_socket::operator!=()"
      ∷ [])
    ∷ datum "operator_3c_3c" "operator&lt;&lt;" (
        link "../classtacopie_1_1utils_1_1thread__pool.html#afb7befd9fa5f1fbd44423fddc8cbc5d3" true
          "tacopie::utils::thread_pool"
        ∷ [])
    ∷ datum "operator_3d" "operator=" (
        link "../classtacopie_1_1io__service.html#a980652008516b38357d405c16eda07fa" true
          "tacopie::io_service::operator=()"
        ∷ link "../classtacopie_1_1self__pipe.html#a14e0fa3a880b6c9559c087eac480c518" true
            "tacopie::self_pipe::operator=()"
        ∷ link "../classtacopie_1_1tcp__client.html#aeadcfb8cd727b2917ebcd357311d0a6b" true
            "tacopie::tcp_client::operator=()"
        ∷ link "../classtacopie_1_1tcp__server.html#a7e7da4352e2e016f8d40d19bf9fee54b" true
            "tacopie::tcp_server::operator=()"
        ∷ link "../classtacopie_1_1tcp__socket.html#aae3234c92bd36d5a614e44472d42bbf4" true
            "tacopie::tcp_socket::operator=()"
        ∷ link "../classtacopie_1_1tacopie__error.html#ad30ae4932d33b460f75570f5f3a6e3f3" true
            "tacopie::tacopie_error::operator=()"
        ∷ link "../classtacopie_1_1logger__iface.html#ac3ca89b7c5d227b8ed3a5adaa5b72527" true
            "tacopie::logger_iface::operator=()"
        ∷ link "../classtacopie_1_1logger.html#a4ee4e53fa0857ee404ddfd5b40759162" true
            "tacopie::logger::operator=()"
        ∷ link "../classtacopie_1_1utils_1_1thread__pool.html#aa0077461da4da6ba3f4dcac029351234"
            true "tacopie::utils::thread_pool::operator=()"
        ∷ [])
    ∷ datum "operator_3d_3d" "operator==" (
        link "../classtacopie_1_1tcp__client.html#af7a1796c04efd00542349ecab692e073" true
          "tacopie::tcp_client::operator==()"
        ∷ link "../classtacopie_1_1tcp__server.html#ab9b95a27afb405668bb4d5b1a312ceae" true
            "tacopie::tcp_server::operator==()"
        ∷ link "../classtacopie_1_1tcp__socket.html#a69fde61058ab72d88ce48f557d8216cf" true
            "tacopie::tcp_socket::operator==()"
        ∷ [])
    ∷ []

abbrev pub functions_a : List Datum
functions_a =
    datum "recv" "recv" (
      link "../classtacopie_1_1tcp__socket.html#a0d6d30258a902d12b3c2c62644756685" true
        "tacopie::tcp_socket"
      ∷ [])
    ∷ []

abbrev pub functions_b : List Datum
functions_b =
    datum "self_5fpipe" "self_pipe" (
      link "../classtacopie_1_1self__pipe.html#add8d2c43863d1505e6851789ab5d9b97" true
        "tacopie::self_pipe::self_pipe(void)"
      ∷ link "../classtacopie_1_1self__pipe.html#a09ffc77b89ad48bc8db6635108c68b6b" true
          "tacopie::self_pipe::self_pipe(const self_pipe &amp;)=delete"
      ∷ [])
    ∷ datum "send" "send" (
        link "../classtacopie_1_1tcp__socket.html#a36521a8f502adc665ad0fb1c53583d04" true
          "tacopie::tcp_socket"
        ∷ [])
    ∷ datum "set_5fnb_5fthreads" "set_nb_threads" (
        link "../classtacopie_1_1utils_1_1thread__pool.html#a7c7ae922cedff8fa323828ebb6dea829" true
          "tacopie::utils::thread_pool"
        ∷ [])
    ∷ datum "set_5fnb_5fworkers" "set_nb_workers" (
        link "../classtacopie_1_1io__service.html#a7e2b0700c0a4591f86c344df8748b3a5" true
          "tacopie::io_service"
        ∷ [])
    ∷ datum "set_5fon_5fdisconnection_5fhandler" "set_on_disconnection_handler" (
        link "../classtacopie_1_1tcp__client.html#a8c290d681186edb0578051c04f3c0762" true
          "tacopie::tcp_client"
        ∷ [])
    ∷ datum "set_5frd_5fcallback" "set_rd_callback" (
        link "../classtacopie_1_1io__service.html#a8094c1fec76c6821cc0c008fe524c89a" true
          "tacopie::io_service"
        ∷ [])
    ∷ datum "set_5ftype" "set_type" (
        link "../classtacopie_1_1tcp__socket.html#a89be86ab254eec3fc16eedfba8b16fb2" true
          "tacopie::tcp_socket"
        ∷ [])
    ∷ datum "set_5fwr_5fcallback" "set_wr_callback" (
        link "../classtacopie_1_1io__service.html#a7c4f56c7790c7ba52b09837a42aaffb1" true
          "tacopie::io_service"
        ∷ [])
    ∷ datum "start" "start" (
        link "../classtacopie_1_1tcp__server.html#a6cb98b50d865b32dba497273a0eca1e9" true
          "tacopie::tcp_server"
        ∷ [])
    ∷ datum "stop" "stop" (
        link "../classtacopie_1_1tcp__server.html#abc099e162432e2218faed93fc84180fd" true
          "tacopie::tcp_server::stop()"
        ∷ link "../classtacopie_1_1utils_1_1thread__pool.html#a8874d7040d12fbe446519bc9f2bcff37"
            true "tacopie::utils::thread_pool::stop()"
        ∷ [])
    ∷ []

abbrev pub functions_c : List Datum
functions_c =
    datum "tacopie_5ferror" "tacopie_error" (
      link "../classtacopie_1_1tacopie__error.html#a524fb8e9ac1825a57664421a3f32b9ce" true
        "tacopie::tacopie_error::tacopie_error(const std::string &amp;what, const std::string &amp;file, std::size_t line)"
      ∷ link "../classtacopie_1_1tacopie__error.html#a0cb2a911165e08818ca03308891633e1" true
          "tacopie::tacopie_error::tacopie_error(const tacopie_error &amp;)=default"
      ∷ [])
    ∷ datum "tcp_5fclient" "tcp_client" (
        link "../classtacopie_1_1tcp__client.html#a9293d5ef2b804f17d778504165ba0c52" true
          "tacopie::tcp_client::tcp_client(void)"
        ∷ link "../classtacopie_1_1tcp__client.html#a773fbcbb5b79324c8d065e363de73282" true
            "tacopie::tcp_client::tcp_client(tcp_socket &amp;&amp;socket)"
        ∷ link "../classtacopie_1_1tcp__client.html#a5e326782c52f63814cc8f42a901ffaf6" true
            "tacopie::tcp_client::tcp_client(const tcp_client &amp;)=delete"
        ∷ [])
    ∷ datum "tcp_5fserver" "tcp_server" (
        link "../classtacopie_1_1tcp__server.html#a4f67a38a0764924768cbcc7cf68527bf" true
          "tacopie::tcp_server::tcp_server(void)"
        ∷ link "../classtacopie_1_1tcp__server.html#a2d9c6a2dea95a3c6a919c655d6e8e0ba" true
            "tacopie::tcp_server::tcp_server(const tcp_server &amp;)=delete"
        ∷ [])
    ∷ datum "tcp_5fsocket" "tcp_socket" (
        link "../classtacopie_1_1tcp__socket.html#a88ed1cadb0263591c4d31805e0a1a001" true
          "tacopie::tcp_socket::tcp_socket(void)"
        ∷ link "../classtacopie_1_1tcp__socket.html#a191ffa48e0753ad4ec87d4d3a4a97822" true
            "tacopie::tcp_socket::tcp_socket(fd_t fd, const std::string &amp;host, std::uint32_t port, type t)"
        ∷ link "../classtacopie_1_1tcp__socket.html#a64f69cd1c185b523b543d4ea53cee1a2" true
            "tacopie::tcp_socket::tcp_socket(tcp_socket &amp;&amp;)"
        ∷ link "../classtacopie_1_1tcp__socket.html#a5ae1a5b0f9713ef256164afdbeb1c193" true
            "tacopie::tcp_socket::tcp_socket(const tcp_socket &amp;)=delete"
        ∷ [])
    ∷ datum "thread_5fpool" "thread_pool" (
        link "../classtacopie_1_1utils_1_1thread__pool.html#aa0068f000b8ecb21b2b0a0c50f77877c" true
          "tacopie::utils::thread_pool::thread_pool(std::size_t nb_threads)"
        ∷ link "../classtacopie_1_1utils_1_1thread__pool.html#a63a850c39d21058eda9d655bb7eff452"
            true "tacopie::utils::thread_pool::thread_pool(const thread_pool &amp;)=delete"
        ∷ [])
    ∷ datum "track" "track" (
        link "../classtacopie_1_1io__service.html#a9f4c8bce3c0f6d660515b0b5eb109df8" true
          "tacopie::io_service"
        ∷ [])
    ∷ []

abbrev pub functions_d : List Datum
functions_d =
    datum "untrack" "untrack" (
      link "../classtacopie_1_1io__service.html#a9a7672f0894a0fc1a3e6c593ca6df22c" true
        "tacopie::io_service"
      ∷ [])
    ∷ []

abbrev pub functions_e : List Datum
functions_e =
    datum "wait_5ffor_5fremoval" "wait_for_removal" (
      link "../classtacopie_1_1io__service.html#aa57db619baeaa6db0aeb22e67b895cd7" true
        "tacopie::io_service"
      ∷ [])
    ∷ datum "warn" "warn" (
        link "../classtacopie_1_1logger__iface.html#ab96d8f6bc2e2b514c7ceec4c856f8921" true
          "tacopie::logger_iface::warn()"
        ∷ link "../classtacopie_1_1logger.html#aa4cd2ffc3f4b9d096a35c5c2aa8e0970" true
            "tacopie::logger::warn()"
        ∷ [])
    ∷ []

abbrev pub functions_f : List Datum
functions_f =
    datum "_7eio_5fservice" "~io_service" (
      link "../classtacopie_1_1io__service.html#ae423d7e4b13f07fe41fb051345ffbf8d" true
        "tacopie::io_service"
      ∷ [])
    ∷ datum "_7elogger" "~logger" (
        link "../classtacopie_1_1logger.html#af5c89b85935dbe3b4da3199247d50398" true
          "tacopie::logger"
        ∷ [])
    ∷ datum "_7elogger_5fiface" "~logger_iface" (
        link "../classtacopie_1_1logger__iface.html#a562dcc605198ca90904ba21fa98eb6ea" true
          "tacopie::logger_iface"
        ∷ [])
    ∷ datum "_7eself_5fpipe" "~self_pipe" (
        link "../classtacopie_1_1self__pipe.html#a10a6c4b0d67a4a14abea397a05cee54c" true
          "tacopie::self_pipe"
        ∷ [])
    ∷ datum "_7etacopie_5ferror" "~tacopie_error" (
        link "../classtacopie_1_1tacopie__error.html#a5bf6b0967f7f4cf2b8f8d0a2ef0912b2" true
          "tacopie::tacopie_error"
        ∷ [])
    ∷ datum "_7etcp_5fserver" "~tcp_server" (
        link "../classtacopie_1_1tcp__server.html#a7841dc528e2d3dfc94fbe9b93824da50" true
          "tacopie::tcp_server"
        ∷ [])
    ∷ datum "_7etcp_5fsocket" "~tcp_socket" (
        link "../classtacopie_1_1tcp__socket.html#a4bd737a76a2a326be03d704f79a35282" true
          "tacopie::tcp_socket"
        ∷ [])
    ∷ datum "_7ethread_5fpool" "~thread_pool" (
        link "../classtacopie_1_1utils_1_1thread__pool.html#accddfc6fad613b0c6d407028799abfc5" true
          "tacopie::utils::thread_pool"
        ∷ [])
    ∷ []
