-- ===== src/Lib.antt =====
-- A model of the tacopie library, with the properties that make it correct.
--
-- The program is a TCP library in C++: a `tcp_socket` wraps a descriptor, an `io_service` polls the
-- sockets that it tracks in a thread of its own and hands their callbacks to a `thread_pool`, and a
-- `tcp_client` queues read and write requests and lets the service call it when its socket is ready.
-- A `tcp_server` accepts connections and looks after the clients that it makes of them.
-- The documentation in docs/html has a search, a menu and sections that open and close, in JavaScript,
-- which are modelled too.
--
-- - `Typedefs`: includes/tacopie/utils/typedefs.hpp, `fd_t`, with sets of descriptors and maps by them.
-- - `Error`: includes/tacopie/utils/error.hpp and sources/utils/error.cpp. What throws in the library, as a
--   sum with the state that is left; `Error.Texts` has the thrown object and what is logged.
-- - `ThreadPool`: includes/tacopie/utils/thread_pool.hpp and sources/utils/thread_pool.cpp. The fields
--   and each operation on them; `ThreadPool.Workers` has the threads in `run`, interleaved.
-- - `Logger`: includes/tacopie/utils/logger.hpp and sources/utils/logger.cpp, with the two streams.
-- - `SelfPipe`: sources/network/unix/unix_self_pipe.cpp, as the number of bytes in the pipe, and
--   sources/network/windows/windows_self_pipe.cpp in `SelfPipe.Windows`.
-- - `IoService`: includes/tacopie/network/io_service.hpp and sources/network/io_service.cpp. `Track` has
--   track, set_rd_callback, set_wr_callback and untrack, `Poll` has init_poll_fds_info, process_events
--   and poll, `Jobs` the ends of the lambdas that process_rd_event and process_wr_event queue, and
--   `System` the poll worker, the jobs that the pool runs and the callers, interleaved. What holds the
--   mutex of the tracked sockets is one step. `Threads` has the pool's threads one by one, each in
--   thread_pool::run with the lambdas of the service as its tasks, and `Lifecycle` what the service
--   promises about one descriptor, as a machine of its own. `Order` has the map of the tracked
--   sockets in other orders, `Stuck` what a callback that throws
--   leaves, and `Default` is the default instance. The callback of a job may return or throw.
-- - `TcpSocket`: includes/tacopie/network/tcp_socket.hpp, sources/network/common/tcp_socket.cpp, and
--   sources/network/unix/unix_tcp_socket.cpp in `TcpSocket.Connect` and
--   sources/network/windows/windows_tcp_socket.cpp in `TcpSocket.Windows`. The answers of the operating
--   system are the fields of the record `Os`, an argument of each operation.
-- - `TcpClient`: includes/tacopie/network/tcp_client.hpp and sources/network/tcp_client.cpp; `Events` has
--   on_read_available and on_write_available. The callbacks of the user are the record `Handlers`.
-- - `TcpServer`: includes/tacopie/network/tcp_server.hpp and sources/network/tcp_server.cpp, with the
--   clients that a server makes as objects of a store, which have numbers; `Destroyed` has the
--   destructor.
-- - `DocSearch`: docs/html/search/search.js. `Ids` has convertToId, `Results`, `Dom` and
--   `Panel` the page of results with its search and its keys, `Build` the elements that createResults
--   makes, with their attributes, `Positions` the places of the windows, `Box` the search box and its menu,
--   `Start` init_search and docs/html/search/searchdata.js.
-- - `DocSections`: docs/html/dynsections.js. `Query` is an interface of the calls of jQuery, with what its
--   documentation says of them as laws; `Folders` has updateStripes, toggleLevel and toggleFolder, and
--   `Toggles` has toggleVisibility and toggleInherit.
-- - `DocMenu`: docs/html/menu.js, and docs/html/menudata.js in `Data`. `Html` is a reader of HTML, which
--   the text of the menu is checked against.
-- - `DocIndex`: the pages of the index in docs/html/search (all_0.js and so on), entry by entry, with what
--   is checked of every one of them in `Complete`.
-- - `Prelude`: shared names and lemmas. `Tests`: runs at concrete inputs.
--
-- Bounds and fuel: `std::size_t` counters wrap at 2 ^ 64. The loop of set_nb_threads takes the new
-- maximum as its fuel, since each round starts a thread below it; the walk over the elements of a page
-- takes a number of rounds, and as many as there are elements are enough. A code unit of a text has four
-- hexadecimal digits at most, and a number n as many decimal digits as n + 1 at most. All other loops are
-- by recursion on a list or on a chain of parents.
--
-- Not modelled: the texts of a self pipe's errors, mutexes on a client's queues (a call of a client is
-- one step), the sleep in a condition variable apart from its predicate, so that no notification is
-- lost, a stop request or a new maximum (which are set without the mutex) between two tests of one
-- fetch_task_or_stop, a callback that throws what is no std::exception, which ends the process, socket
-- addresses, the styles of a page, jQuery, and pages of an older index that docs/html/search still has
-- and no search opens.
pub mod Prelude
pub mod ThreadPool
pub mod Typedefs
pub mod SelfPipe
pub mod IoService
pub mod Error
pub mod Logger
pub mod TcpSocket
pub mod TcpClient
pub mod TcpServer
pub mod DocSearch
pub mod DocSections
pub mod DocMenu
pub mod DocIndex
pub mod Tests
