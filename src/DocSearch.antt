-- ===== src/DocSearch.antt =====
-- docs/html/search/search.js: the search of the documentation site. A string is the list of its
-- UTF-16 code units.
pub mod Positions
pub mod Build
pub mod Numbers
pub mod Box
pub mod Decode
pub mod Dom
pub mod Ids
pub mod Moves
pub mod Results
pub mod Panel
pub mod Search
pub mod Start
