-- ===== src/Tests/Server.antt =====
-- Runs of a server, on the system on which each call succeeds.
use tacopie.TcpServer
use tacopie.IoService
use tacopie.Prelude.{List, ℕ, ◌≡◌, refl, Bool, true, false, ◌||◌, [], ◌∷◌, none, some}
use tacopie.TcpServer.{lookup, Hub, TcpServer}
use tacopie.TcpSocket.{TcpSocket, Os, Peer, connected, server, client, af_inet}
use tacopie.TcpClient.{server_read, TcpClient, Event}
use tacopie.Typedefs.{find, fd, invalid}
use tacopie.IoService.{TrackedSocket, IoService}
use tacopie.TcpServer.Lifetime.{mem, start-StartEnds, StartEnds}
use tacopie.TcpServer.Stopping.{stop_lem, is_off}
use tacopie.TcpServer.Registered.{Minds, Registered}
use tacopie.TcpServer.History.{Happening, starts, reads, loses, history, create-history-Registered}
use tacopie.TcpServer.Destroyed.{destroy-reading}

abbrev peer : Peer
peer = record { family = af_inet; address = some (b'1' ∷ []); port = 9 }

abbrev os : Os
os = record {
  socket = λ f. fd 5;
  recv = λ f size. none;
  send = λ f bytes size. some size;
  listen = λ f n. true;
  accept = λ f. (fd 8, peer);
  bind = λ f host port. true;
  inet_pton = λ host. true;
  getaddrinfo = λ host. true;
  set_blocking = λ f b. true;
  connect = λ f host port. connected;
  select_writable = λ f t. true;
  no_pending_error = λ f. true;
}

abbrev service : IoService Event
service = IoService.create (record { read_fd = fd 3; write_fd = fd 4; pending = 0 })

abbrev new_hub : Hub ℕ ℕ ℕ
new_hub = TcpServer.create service

start-StartEnds_example : StartEnds 1 new_hub (TcpServer.start os 1 (b'h' ∷ []) 80 none new_hub)
start-StartEnds_example = start-StartEnds os 1 (b'h' ∷ []) 80 none new_hub

abbrev listener : TcpSocket
listener = record { m_fd = fd 5; host = b'h' ∷ []; port = 80; type = server }

abbrev accepted_socket : TcpSocket
accepted_socket = record { m_fd = fd 8; host = b'1' ∷ []; port = 9; type = client }

abbrev old_client : TcpClient ℕ ℕ ℕ
old_client = record {
  socket = record accepted_socket { m_fd = fd 7 };
  is_connected = true;
  read_requests = [];
  write_requests = [];
  disconnection_handler = some 0;
}

-- A server that runs, with one client.
abbrev hub : Hub ℕ ℕ ℕ
hub = record {
  server = record {
    socket = listener;
    is_running = true;
    callback_on_new_connection = none;
    clients = 0 ∷ [];
  };
  store = (0, old_client) ∷ [];
  made = 1;
  service = service;
}

abbrev run : ℕ → ℕ → Hub ℕ ℕ ℕ → Hub ℕ ℕ ℕ × Bool
run callback id u = (u, true)

stop_example :
    let v = TcpServer.stop none none hub in
    (v.server.is_running ≡ false)
    × (v.server.socket.m_fd ≡ invalid)
    × (v.server.clients ≡ [])
    × (is_off (lookup 0 v.store) ≡ (mem 0 (0 ∷ []) || is_off (lookup 0 hub.store)))
stop_example = stop_lem none none hub 0 refl

run-Minds : Minds run
run-Minds callback id u = (refl, refl, λ k other. refl)

abbrev happenings : List (Happening ℕ)
happenings = starts os 1 (b'h' ∷ []) 80 none ∷ reads os ∷ reads os ∷ loses 0 ∷ []

create-history-Registered_example : Registered (history run happenings (TcpServer.create service))
create-history-Registered_example = create-history-Registered run happenings service run-Minds

-- The entry of the server while its callback runs.
abbrev accepting : TrackedSocket Event
accepting = record {
  callback_read = some (server_read 1);
  is_executing_read = true;
  callback_write = none;
  is_executing_write = false;
  marked_for_untrack = false;
}

abbrev lone_hub : Hub ℕ ℕ ℕ
lone_hub = record hub {
  server = record hub.server { clients = [] };
  service = record service { tracked = (fd 5, accepting) ∷ [] };
}

destroy-reading_example :
    find (fd 5) (TcpServer.destroy lone_hub).service.tracked
    ≡ some (record accepting { marked_for_untrack = true })
unfolding find
destroy-reading_example = destroy-reading lone_hub accepting refl refl refl refl
