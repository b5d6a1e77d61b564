-- ===== src/DocIndex.antt =====
-- docs/html/search: the pages of the index of this project, section by section, as createResults of
-- search.js gets them. Only the pages that searchdata.js has a character for are here: the folder also
-- has pages of an older index, which no search opens.
pub mod All
pub mod Classes
pub mod Functions
pub mod Variables
pub mod Typedefs
pub mod Enums
pub mod Complete
pub mod Finding
use tacopie.Prelude.{codes, String, Bool, List}
use tacopie.DocSearch.Panel.{Datum, Link}

abbrev pub link : String → Bool → String → Link
link href in_parent scope = record { href = codes href; in_parent = in_parent; scope = codes scope }

abbrev pub datum : String → String → List Link → Datum
datum id name links = record { id = codes id; name = codes name; links = links }
