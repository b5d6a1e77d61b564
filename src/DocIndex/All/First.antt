-- ===== src/DocIndex/All/First.antt =====
-- docs/html/search/all_0.js and the pages after it: all_0 to all_8.
use tacopie.Prelude.{List, [], ◌∷◌, true}
use tacopie.DocSearch.Panel.{Datum}
use tacopie.DocIndex.{datum, link}

abbrev pub all_0 : List Datum
all_0 =
    datum "accept" "accept" (
      link "../classtacopie_1_1tcp__socket.html#af5113c9332f83643cdaaf15c3f137760" true
        "tacopie::tcp_socket"
      ∷ [])
    ∷ datum "add_5ftask" "add_task" (
        link "../classtacopie_1_1utils_1_1thread__pool.html#a450bee2b7b2cd0aa0bc3935c8adc9ace" true
          "tacopie::utils::thread_pool"
        ∷ [])
    ∷ datum "async_5fread" "async_read" (
        link "../classtacopie_1_1tcp__client.html#a120e3ec2902acc902f7a0b27074bda6b" true
          "tacopie::tcp_client"
        ∷ [])
    ∷ datum "async_5fread_5fcallback" "async_read_callback" (
        link
          "../structtacopie_1_1tcp__client_1_1read__request.html#a3d495e82e38efebf763f595392b0db46"
          true "tacopie::tcp_client::read_request"
        ∷ [])
    ∷ datum "async_5fread_5fcallback_5ft" "async_read_callback_t" (
        link "../classtacopie_1_1tcp__client.html#acdf9dea8bac6c56f7b04ce38b9432322" true
          "tacopie::tcp_client"
        ∷ [])
    ∷ datum "async_5fwrite" "async_write" (
        link "../classtacopie_1_1tcp__client.html#a2304ed6d4ca0cbc74e6aa72d3e92b76a" true
          "tacopie::tcp_client"
        ∷ [])
    ∷ datum "async_5fwrite_5fcallback" "async_write_callback" (
        link
          "../structtacopie_1_1tcp__client_1_1write__request.html#a04fd3e5484ba322d0112024bf8823623"
          true "tacopie::tcp_client::write_request"
        ∷ [])
    ∷ datum "async_5fwrite_5fcallback_5ft" "async_write_callback_t" (
        link "../classtacopie_1_1tcp__client.html#ad48b8c8dff8a77490eb2e3e802c82b97" true
          "tacopie::tcp_client"
        ∷ [])
    ∷ []

abbrev pub all_1 : List Datum
all_1 =
    datum "bind" "bind" (
      link "../classtacopie_1_1tcp__socket.html#a910a183d7c45483f1cdacd10a1896155" true
        "tacopie::tcp_socket"
      ∷ [])
    ∷ datum "buffer" "buffer" (
        link
          "../structtacopie_1_1tcp__client_1_1read__result.html#a50d22ea3a43d085d88d54bbf59a357dc"
          true "tacopie::tcp_client::read_result::buffer()"
        ∷ link
            "../structtacopie_1_1tcp__client_1_1write__request.html#a4ee0c159b630c14f81d6b6d7d4b4e826"
            true "tacopie::tcp_client::write_request::buffer()"
        ∷ [])
    ∷ []

abbrev pub all_2 : List Datum
all_2 =
    datum "close" "close" (
      link "../classtacopie_1_1tcp__socket.html#ad5a30b17b1dad9f0ff40305e246a9213" true
        "tacopie::tcp_socket"
      ∷ [])
    ∷ datum "clr_5fbuffer" "clr_buffer" (
        link "../classtacopie_1_1self__pipe.html#a4f55a34bd882d59bdcc73b87222ba3d8" true
          "tacopie::self_pipe"
        ∷ [])
    ∷ datum "connect" "connect" (
        link "../classtacopie_1_1tcp__client.html#a0cfbb18cb72aa3b6a41921f61cacc425" true
          "tacopie::tcp_client::connect()"
        ∷ link "../classtacopie_1_1tcp__socket.html#a6748c78312763dca6b8be05c4c8c3419" true
            "tacopie::tcp_socket::connect()"
        ∷ [])
    ∷ []

abbrev pub all_3 : List Datum
all_3 =
    datum "debug" "debug" (
      link "../classtacopie_1_1logger__iface.html#a156abb02ab852ea4033fc13f4902ee7a" true
        "tacopie::logger_iface::debug()"
      ∷ link "../classtacopie_1_1logger.html#aff31bbc7d3fdbbe60a2331fe24ec76ff" true
          "tacopie::logger::debug()"
      ∷ [])
    ∷ datum "disconnect" "disconnect" (
        link "../classtacopie_1_1tcp__client.html#a7562e0bfa24912595d6f695f848b9e51" true
          "tacopie::tcp_client"
        ∷ [])
    ∷ datum "disconnection_5fhandler_5ft" "disconnection_handler_t" (
        link "../classtacopie_1_1tcp__client.html#aca5df52e5ee6fa673cf212532ada1453" true
          "tacopie::tcp_client"
        ∷ [])
    ∷ []

abbrev pub all_4 : List Datum
all_4 =
    datum "error" "error" (
      link "../classtacopie_1_1logger__iface.html#a18f9c02fc19be4b9900ac9fb1a361624" true
        "tacopie::logger_iface::error()"
      ∷ link "../classtacopie_1_1logger.html#a3fe1be02ac2f4e4fe44a0bdaf8359546" true
          "tacopie::logger::error()"
      ∷ [])
    ∷ datum "event_5fcallback_5ft" "event_callback_t" (
        link "../classtacopie_1_1io__service.html#abb66850c32d9c724f4418d77bd04bcfd" true
          "tacopie::io_service"
        ∷ [])
    ∷ []

abbrev pub all_5 : List Datum
all_5 =
    datum "get_5fclients" "get_clients" (
      link "../classtacopie_1_1tcp__server.html#a0df81b943243ad51102c37d4944be8d7" true
        "tacopie::tcp_server"
      ∷ [])
    ∷ datum "get_5ffd" "get_fd" (
        link "../classtacopie_1_1tcp__socket.html#a4fd367a1802ed6ae7fa0e33fc07ed255" true
          "tacopie::tcp_socket"
        ∷ [])
    ∷ datum "get_5ffile" "get_file" (
        link "../classtacopie_1_1tacopie__error.html#a10360163c780a1bd9c95fcecca5aa6da" true
          "tacopie::tacopie_error"
        ∷ [])
    ∷ datum "get_5fhost" "get_host" (
        link "../classtacopie_1_1tcp__client.html#ad38ab710c5eca64de2f887abc455b15d" true
          "tacopie::tcp_client::get_host()"
        ∷ link "../classtacopie_1_1tcp__socket.html#ad294565f9a0fa52639ecfbf133eecd59" true
            "tacopie::tcp_socket::get_host()"
        ∷ [])
    ∷ datum "get_5fio_5fservice" "get_io_service" (
        link "../classtacopie_1_1tcp__client.html#aafbf0aa37cd0472778d09fb163362314" true
          "tacopie::tcp_client::get_io_service()"
        ∷ link "../classtacopie_1_1tcp__server.html#aace4796627b6abccccce1a541908414f" true
            "tacopie::tcp_server::get_io_service()"
        ∷ [])
    ∷ datum "get_5fline" "get_line" (
        link "../classtacopie_1_1tacopie__error.html#a39704d2cb6f076aa47d45f53f174b257" true
          "tacopie::tacopie_error"
        ∷ [])
    ∷ datum "get_5fport" "get_port" (
        link "../classtacopie_1_1tcp__client.html#a3b42ae2afe6d5ee5f2f16b8bd7846f37" true
          "tacopie::tcp_client::get_port()"
        ∷ link "../classtacopie_1_1tcp__socket.html#a5276fdc687ac3c5089a05e3e2d9de4fb" true
            "tacopie::tcp_socket::get_port()"
        ∷ [])
    ∷ datum "get_5fread_5ffd" "get_read_fd" (
        link "../classtacopie_1_1self__pipe.html#a301b416f5f8236a383065b381385b88c" true
          "tacopie::self_pipe"
        ∷ [])
    ∷ datum "get_5fsocket" "get_socket" (
        link "../classtacopie_1_1tcp__client.html#a1a3834deb1d263ec5816066f74286298" true
          "tacopie::tcp_client::get_socket(void)"
        ∷ link "../classtacopie_1_1tcp__client.html#a9cf1f3ccf43f9a0a883a17b15e3668d6" true
            "tacopie::tcp_client::get_socket(void) const"
        ∷ link "../classtacopie_1_1tcp__server.html#a39a51b9203d42babfd9c4c1a0f4cc340" true
            "tacopie::tcp_server::get_socket(void)"
        ∷ link "../classtacopie_1_1tcp__server.html#a373aec294e24a52c3ef6c44920af36e2" true
            "tacopie::tcp_server::get_socket(void) const"
        ∷ [])
    ∷ datum "get_5ftype" "get_type" (
        link "../classtacopie_1_1tcp__socket.html#a4f663be51b845520505bc20a88b411ee" true
          "tacopie::tcp_socket"
        ∷ [])
    ∷ datum "get_5fwrite_5ffd" "get_write_fd" (
        link "../classtacopie_1_1self__pipe.html#ab36a4deb45bb408988f26315aedc0d74" true
          "tacopie::self_pipe"
        ∷ [])
    ∷ []

abbrev pub all_6 : List Datum
all_6 =
    datum "info" "info" (
      link "../classtacopie_1_1logger__iface.html#af176525bca036944f75bad6469860929" true
        "tacopie::logger_iface::info()"
      ∷ link "../classtacopie_1_1logger.html#a5089c5a6127586d4f2ea3a69a0bf6570" true
          "tacopie::logger::info()"
      ∷ [])
    ∷ datum "io_5fservice" "io_service" (
        link "../classtacopie_1_1io__service.html" true "tacopie::io_service"
        ∷ link "../classtacopie_1_1io__service.html#a4cd4a873cb4457cdc28bd2d00665d15a" true
            "tacopie::io_service::io_service(void)"
        ∷ link "../classtacopie_1_1io__service.html#ad5da7503d8fec083c6d28455ec9e21c7" true
            "tacopie::io_service::io_service(const io_service &amp;)=delete"
        ∷ [])
    ∷ datum "is_5fconnected" "is_connected" (
        link "../classtacopie_1_1tcp__client.html#a9bf568812c8350260843842e7952c8c3" true
          "tacopie::tcp_client"
        ∷ [])
    ∷ datum "is_5fipv6" "is_ipv6" (
        link "../classtacopie_1_1tcp__socket.html#a6d9933c767572b03fbb4b5ced4bd1fc4" true
          "tacopie::tcp_socket"
        ∷ [])
    ∷ datum "is_5frunning" "is_running" (
        link "../classtacopie_1_1tcp__server.html#a76162141e6443953f3ad8e11c4e4d3d7" true
          "tacopie::tcp_server::is_running()"
        ∷ link "../classtacopie_1_1utils_1_1thread__pool.html#a77a647a75be188a5c5f83b922c061107"
            true "tacopie::utils::thread_pool::is_running()"
        ∷ [])
    ∷ []

abbrev pub all_7 : List Datum
all_7 =
    datum "listen" "listen" (
      link "../classtacopie_1_1tcp__socket.html#af0957ded2a84fb06d940cba98df477fb" true
        "tacopie::tcp_socket"
      ∷ [])
    ∷ datum "log_5flevel" "log_level" (
        link "../classtacopie_1_1logger.html#ae7dd235972bbf86a017fc39b3af80efe" true
          "tacopie::logger"
        ∷ [])
    ∷ datum "logger" "logger" (
        link "../classtacopie_1_1logger.html" true "tacopie::logger"
        ∷ link "../classtacopie_1_1logger.html#af863301c0ef7f646469eb944285cb280" true
            "tacopie::logger::logger(log_level level=log_level::info)"
        ∷ link "../classtacopie_1_1logger.html#af22e5c126a0e0dbd4c82dc1c40b2d16f" true
            "tacopie::logger::logger(const logger &amp;)=default"
        ∷ [])
    ∷ datum "logger_5fiface" "logger_iface" (
        link "../classtacopie_1_1logger__iface.html" true "tacopie::logger_iface"
        ∷ link "../classtacopie_1_1logger__iface.html#afccf838f815d168e82e4722e2c4d0d90" true
            "tacopie::logger_iface::logger_iface(void)=default"
        ∷ link "../classtacopie_1_1logger__iface.html#a34fb7873b2c5e908afd2d4a0d4965ec1" true
            "tacopie::logger_iface::logger_iface(const logger_iface &amp;)=default"
        ∷ [])
    ∷ []

abbrev pub all_8 : List Datum
all_8 =
    datum "notify" "notify" (
      link "../classtacopie_1_1self__pipe.html#ade9e0e3d19b8d4d22977935a578d508e" true
        "tacopie::self_pipe"
      ∷ [])
    ∷ []
