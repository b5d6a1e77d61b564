-- ===== src/DocIndex/Variables.antt =====
-- docs/html/search/variables_0.js and the pages after it.
use tacopie.Prelude.{List, [], ◌∷◌, true}
use tacopie.DocSearch.Panel.{Datum}
use tacopie.DocIndex.{datum, link}

abbrev pub variables_0 : List Datum
variables_0 =
    datum "async_5fread_5fcallback" "async_read_callback" (
      link "../structtacopie_1_1tcp__client_1_1read__request.html#a3d495e82e38efebf763f595392b0db46"
        true "tacopie::tcp_client::read_request"
      ∷ [])
    ∷ datum "async_5fwrite_5fcallback" "async_write_callback" (
        link
          "../structtacopie_1_1tcp__client_1_1write__request.html#a04fd3e5484ba322d0112024bf8823623"
          true "tacopie::tcp_client::write_request"
        ∷ [])
    ∷ []

abbrev pub variables_1 : List Datum
variables_1 =
    datum "buffer" "buffer" (
      link "../structtacopie_1_1tcp__client_1_1read__result.html#a50d22ea3a43d085d88d54bbf59a357dc"
        true "tacopie::tcp_client::read_result::buffer()"
      ∷ link
          "../structtacopie_1_1tcp__client_1_1write__request.html#a4ee0c159b630c14f81d6b6d7d4b4e826"
          true "tacopie::tcp_client::write_request::buffer()"
      ∷ [])
    ∷ []

abbrev pub variables_2 : List Datum
variables_2 =
    datum "size" "size" (
      link "../structtacopie_1_1tcp__client_1_1write__result.html#acee9eca954a6f1b6283c6188eead2ab1"
        true "tacopie::tcp_client::write_result::size()"
      ∷ link
          "../structtacopie_1_1tcp__client_1_1read__request.html#ad8b69f61884c60596aface363ca947a3"
          true "tacopie::tcp_client::read_request::size()"
      ∷ [])
    ∷ datum "success" "success" (
        link
          "../structtacopie_1_1tcp__client_1_1read__result.html#a9bb917b8d210159a95655a6f8da8e96e"
          true "tacopie::tcp_client::read_result::success()"
        ∷ link
            "../structtacopie_1_1tcp__client_1_1write__result.html#a4a8d5706c83068a97c10e63c6080e6a3"
            true "tacopie::tcp_client::write_result::success()"
        ∷ [])
    ∷ []

-- The pages of the section, in the order of its characters.
abbrev pub variables_pages : List (List Datum)
variables_pages = variables_0 ∷ variables_1 ∷ variables_2 ∷ []
