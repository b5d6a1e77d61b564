-- ===== src/DocIndex/All/Second.antt =====
-- docs/html/search/all_0.js and the pages after it: all_9 to all_d.
use tacopie.Prelude.{List, [], ◌∷◌, true}
use tacopie.DocSearch.Panel.{Datum}
use tacopie.DocIndex.{datum, link}

abbrev pub all_9 : List Datum
all_9 =
    datum "on_5fnew_5fconnection_5fcallback_5ft" "on_new_connection_callback_t" (
      link "../classtacopie_1_1tcp__server.html#a103cb4e6fcab00f88a708aabd38b66ff" true
        "tacopie::tcp_server"
      ∷ [])
    ∷ datum "operator_21_3d" "operator!=" (
        link "../classtacopie_1_1tcp__client.html#af352b6b1e939c919aec2761517051eb9" true
          "tacopie::tcp_client::operator!=()"
        ∷ link "../classtacopie_1_1tcp__server.html#aa45611b77d60b536aeaf626d1724342d" true
            "tacopie::tcp_server::operator!=()"
        ∷ link "../classtacopie_1_1tcp__socket.html#a76f69612969374b5aa542378d37ee398" true
            "tacopie::tcp_socket::operator!=()"
        ∷ [])
    ∷ datum "operator_3c_3c" "operator&lt;&lt;" (
        link "../classtacopie_1_1utils_1_1thread__pool.html#afb7befd9fa5f1fbd44423fddc8cbc5d3" true
          "tacopie::utils::thread_pool"
        ∷ [])
    ∷ datum "operator_3d" "operator=" (
        link "../classtacopie_1_1io__service.html#a980652008516b38357d405c16eda07fa" true
          "tacopie::io_service::operator=()"
        ∷ link "../classtacopie_1_1self__pipe.html#a14e0fa3a880b6c9559c087eac480c518" true
            "tacopie::self_pipe::operator=()"
        ∷ link "../classtacopie_1_1tcp__client.html#aeadcfb8cd727b2917ebcd357311d0a6b" true
            "tacopie::tcp_client::operator=()"
        ∷ link "../classtacopie_1_1tcp__server.html#a7e7da4352e2e016f8d40d19bf9fee54b" true
            "tacopie::tcp_server::operator=()"
        ∷ link "../classtacopie_1_1tcp__socket.html#aae3234c92bd36d5a614e44472d42bbf4" true
            "tacopie::tcp_socket::operator=()"
        ∷ link "../classtacopie_1_1tacopie__error.html#ad30ae4932d33b460f75570f5f3a6e3f3" true
            "tacopie::tacopie_error::operator=()"
        ∷ link "../classtacopie_1_1logger__iface.html#ac3ca89b7c5d227b8ed3a5adaa5b72527" true
            "tacopie::logger_iface::operator=()"
        ∷ link "../classtacopie_1_1logger.html#a4ee4e53fa0857ee404ddfd5b40759162" true
            "tacopie::logger::operator=()"
        ∷ link "../classtacopie_1_1utils_1_1thread__pool.html#aa0077461da4da6ba3f4dcac029351234"
            true "tacopie::utils::thread_pool::operator=()"
        ∷ [])
    ∷ datum "operator_3d_3d" "operator==" (
        link "../classtacopie_1_1tcp__client.html#af7a1796c04efd00542349ecab692e073" true
          "tacopie::tcp_client::operator==()"
        ∷ link "../classtacopie_1_1tcp__server.html#ab9b95a27afb405668bb4d5b1a312ceae" true
            "tacopie::tcp_server::operator==()"
        ∷ link "../classtacopie_1_1tcp__socket.html#a69fde61058ab72d88ce48f557d8216cf" true
            "tacopie::tcp_socket::operator==()"
        ∷ [])
    ∷ []

abbrev pub all_a : List Datum
all_a =
    datum "read_5frequest" "read_request"
      (link "../structtacopie_1_1tcp__client_1_1read__request.html" true "tacopie::tcp_client" ∷ [])
    ∷ datum "read_5fresult" "read_result" (
        link "../structtacopie_1_1tcp__client_1_1read__result.html" true "tacopie::tcp_client" ∷ [])
    ∷ datum "recv" "recv" (
        link "../classtacopie_1_1tcp__socket.html#a0d6d30258a902d12b3c2c62644756685" true
          "tacopie::tcp_socket"
        ∷ [])
    ∷ []

abbrev pub all_b : List Datum
all_b =
    datum "self_5fpipe" "self_pipe" (
      link "../classtacopie_1_1self__pipe.html" true "tacopie::self_pipe"
      ∷ link "../classtacopie_1_1self__pipe.html#add8d2c43863d1505e6851789ab5d9b97" true
          "tacopie::self_pipe::self_pipe(void)"
      ∷ link "../classtacopie_1_1self__pipe.html#a09ffc77b89ad48bc8db6635108c68b6b" true
          "tacopie::self_pipe::self_pipe(const self_pipe &amp;)=delete"
      ∷ [])
    ∷ datum "send" "send" (
        link "../classtacopie_1_1tcp__socket.html#a36521a8f502adc665ad0fb1c53583d04" true
          "tacopie::tcp_socket"
        ∷ [])
    ∷ datum "set_5fnb_5fthreads" "set_nb_threads" (
        link "../classtacopie_1_1utils_1_1thread__pool.html#a7c7ae922cedff8fa323828ebb6dea829" true
          "tacopie::utils::thread_pool"
        ∷ [])
    ∷ datum "set_5fnb_5fworkers" "set_nb_workers" (
        link "../classtacopie_1_1io__service.html#a7e2b0700c0a4591f86c344df8748b3a5" true
          "tacopie::io_service"
        ∷ [])
    ∷ datum "set_5fon_5fdisconnection_5fhandler" "set_on_disconnection_handler" (
        link "../classtacopie_1_1tcp__client.html#a8c290d681186edb0578051c04f3c0762" true
          "tacopie::tcp_client"
        ∷ [])
    ∷ datum "set_5frd_5fcallback" "set_rd_callback" (
        link "../classtacopie_1_1io__service.html#a8094c1fec76c6821cc0c008fe524c89a" true
          "tacopie::io_service"
        ∷ [])
    ∷ datum "set_5ftype" "set_type" (
        link "../classtacopie_1_1tcp__socket.html#a89be86ab254eec3fc16eedfba8b16fb2" true
          "tacopie::tcp_socket"
        ∷ [])
    ∷ datum "set_5fwr_5fcallback" "set_wr_callback" (
        link "../classtacopie_1_1io__service.html#a7c4f56c7790c7ba52b09837a42aaffb1" true
          "tacopie::io_service"
        ∷ [])
    ∷ datum "size" "size" (
        link
          "../structtacopie_1_1tcp__client_1_1write__result.html#acee9eca954a6f1b6283c6188eead2ab1"
          true "tacopie::tcp_client::write_result::size()"
        ∷ link
            "../structtacopie_1_1tcp__client_1_1read__request.html#ad8b69f61884c60596aface363ca947a3"
            true "tacopie::tcp_client::read_request::size()"
        ∷ [])
    ∷ datum "start" "start" (
        link "../classtacopie_1_1tcp__server.html#a6cb98b50d865b32dba497273a0eca1e9" true
          "tacopie::tcp_server"
        ∷ [])
    ∷ datum "stop" "stop" (
        link "../classtacopie_1_1tcp__server.html#abc099e162432e2218faed93fc84180fd" true
          "tacopie::tcp_server::stop()"
        ∷ link "../classtacopie_1_1utils_1_1thread__pool.html#a8874d7040d12fbe446519bc9f2bcff37"
            true "tacopie::utils::thread_pool::stop()"
        ∷ [])
    ∷ datum "success" "success" (
        link
          "../structtacopie_1_1tcp__client_1_1read__result.html#a9bb917b8d210159a95655a6f8da8e96e"
          true "tacopie::tcp_client::read_result::success()"
        ∷ link
            "../structtacopie_1_1tcp__client_1_1write__result.html#a4a8d5706c83068a97c10e63c6080e6a3"
            true "tacopie::tcp_client::write_result::success()"
        ∷ [])
    ∷ []

abbrev pub all_c : List Datum
all_c =
    datum "tacopie_5ferror" "tacopie_error" (
      link "../classtacopie_1_1tacopie__error.html" true "tacopie::tacopie_error"
      ∷ link "../classtacopie_1_1tacopie__error.html#a524fb8e9ac1825a57664421a3f32b9ce" true
          "tacopie::tacopie_error::tacopie_error(const std::string &amp;what, const std::string &amp;file, std::size_t line)"
      ∷ link "../classtacopie_1_1tacopie__error.html#a0cb2a911165e08818ca03308891633e1" true
          "tacopie::tacopie_error::tacopie_error(const tacopie_error &amp;)=default"
      ∷ [])
    ∷ datum "task_5ft" "task_t" (
        link "../classtacopie_1_1utils_1_1thread__pool.html#a8ae8886fdeaa8e5c0abad12626a47296" true
          "tacopie::utils::thread_pool"
        ∷ [])
    ∷ datum "tcp_5fclient" "tcp_client" (
        link "../classtacopie_1_1tcp__client.html" true "tacopie::tcp_client"
        ∷ link "../classtacopie_1_1tcp__client.html#a9293d5ef2b804f17d778504165ba0c52" true
            "tacopie::tcp_client::tcp_client(void)"
        ∷ link "../classtacopie_1_1tcp__client.html#a773fbcbb5b79324c8d065e363de73282" true
            "tacopie::tcp_client::tcp_client(tcp_socket &amp;&amp;socket)"
        ∷ link "../classtacopie_1_1tcp__client.html#a5e326782c52f63814cc8f42a901ffaf6" true
            "tacopie::tcp_client::tcp_client(const tcp_client &amp;)=delete"
        ∷ [])
    ∷ datum "tcp_5fserver" "tcp_server" (
        link "../classtacopie_1_1tcp__server.html" true "tacopie::tcp_server"
        ∷ link "../classtacopie_1_1tcp__server.html#a4f67a38a0764924768cbcc7cf68527bf" true
            "tacopie::tcp_server::tcp_server(void)"
        ∷ link "../classtacopie_1_1tcp__server.html#a2d9c6a2dea95a3c6a919c655d6e8e0ba" true
            "tacopie::tcp_server::tcp_server(const tcp_server &amp;)=delete"
        ∷ [])
    ∷ datum "tcp_5fsocket" "tcp_socket" (
        link "../classtacopie_1_1tcp__socket.html" true "tacopie::tcp_socket"
        ∷ link "../classtacopie_1_1tcp__socket.html#a88ed1cadb0263591c4d31805e0a1a001" true
            "tacopie::tcp_socket::tcp_socket(void)"
        ∷ link "../classtacopie_1_1tcp__socket.html#a191ffa48e0753ad4ec87d4d3a4a97822" true
            "tacopie::tcp_socket::tcp_socket(fd_t fd, const std::string &amp;host, std::uint32_t port, type t)"
        ∷ link "../classtacopie_1_1tcp__socket.html#a64f69cd1c185b523b543d4ea53cee1a2" true
            "tacopie::tcp_socket::tcp_socket(tcp_socket &amp;&amp;)"
        ∷ link "../classtacopie_1_1tcp__socket.html#a5ae1a5b0f9713ef256164afdbeb1c193" true
            "tacopie::tcp_socket::tcp_socket(const tcp_socket &amp;)=delete"
        ∷ [])
    ∷ datum "thread_5fpool" "thread_pool" (
        link "../classtacopie_1_1utils_1_1thread__pool.html" true "tacopie::utils::thread_pool"
        ∷ link "../classtacopie_1_1utils_1_1thread__pool.html#aa0068f000b8ecb21b2b0a0c50f77877c"
            true "tacopie::utils::thread_pool::thread_pool(std::size_t nb_threads)"
        ∷ link "../classtacopie_1_1utils_1_1thread__pool.html#a63a850c39d21058eda9d655bb7eff452"
            true "tacopie::utils::thread_pool::thread_pool(const thread_pool &amp;)=delete"
        ∷ [])
    ∷ datum "track" "track" (
        link "../classtacopie_1_1io__service.html#a9f4c8bce3c0f6d660515b0b5eb109df8" true
          "tacopie::io_service"
        ∷ [])
    ∷ datum "type" "type" (
        link "../classtacopie_1_1tcp__socket.html#ad8376e85df96ab9523f5d079ed7172ab" true
          "tacopie::tcp_socket"
        ∷ [])
    ∷ []

abbrev pub all_d : List Datum
all_d =
    datum "untrack" "untrack" (
      link "../classtacopie_1_1io__service.html#a9a7672f0894a0fc1a3e6c593ca6df22c" true
        "tacopie::io_service"
      ∷ [])
    ∷ []
