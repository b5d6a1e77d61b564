-- ===== src/Tests/Client.antt =====
-- Runs of a socket and of a client, on a system on which each call succeeds.
use tacopie.TcpSocket.Windows
use tacopie.TcpSocket.Windows.{connect-bind_platforms}
use tacopie.TcpSocket.Connect
use tacopie.TcpClient
use tacopie.IoService
use tacopie.TcpSocket
use tacopie.Error.{Error}
use tacopie.Prelude.{
  ◌≢◌, ℕ, ◌≡◌, refl, true, false, List, [], ◌∷◌, none, some, arith, if◌then◌else◌, inr,
}
use tacopie.TcpSocket.{client, connected, af_inet, type_eq, Os, TcpSocket}
use tacopie.TcpSocket.Kinds.{binds, perform-kind, perform}
use tacopie.TcpSocket.Connecting.{connect-ConnectEnds, ConnectEnds}
use tacopie.TcpClient.Events.{call, Handlers, on_read_available}
use tacopie.TcpClient.Answers.{Keeps}
use tacopie.SelfPipe.{SelfPipe}
use tacopie.IoService.{IoService, TrackedSocket}
use tacopie.TcpClient.{client_read, Event, ReadRequest, ReadResult, TcpClient, World, WriteRequest}
use tacopie.TcpClient.History.{
  on_read_available-data, on_read_available-lost, read_event, async_reads, create-history-Linked,
  popped, connects, history, Happening,
}
use tacopie.TcpClient.Linked.{Linked}
use tacopie.Typedefs.{fd, find}
use tacopie.TcpSocket.Connect.{connect}
use tacopie.TcpClient.Calls.{cut_off, run_if_set, on_read_available-no_request}

abbrev os : Os
os = record {
  socket = λ f. fd 7;
  recv = λ f size. some (104 ∷ 105 ∷ []);
  send = λ f bytes size. some size;
  listen = λ f n. true;
  accept = λ f. (fd 8, record { family = af_inet; address = none; port = 1 });
  bind = λ f host port. true;
  inet_pton = λ host. true;
  getaddrinfo = λ host. true;
  set_blocking = λ f b. true;
  connect = λ f host port. connected;
  select_writable = λ f t. true;
  no_pending_error = λ f. true;
}

-- The same system once the peer has closed the connection.
abbrev closed_os : Os
closed_os = record os { recv = λ f size. some [] }

abbrev host : List ℕ
host = b'1' ∷ b'.' ∷ []

abbrev socket : TcpSocket
socket = record { m_fd = fd 7; host = host; port = 80; type = client }

perform-kind_example :
    perform os (binds host 90) socket
    ≡ (some Error.invalid_operation, record socket { host = host; port = 90 })
perform-kind_example = perform-kind os (binds host 90) socket refl (ground arith)

connect-ConnectEnds_example : ConnectEnds host 80 (connect os host 80 100 TcpSocket.create)
connect-ConnectEnds_example = connect-ConnectEnds os host 80 100 TcpSocket.create

eighty-ne-zero : ◌≢◌ {A = ℕ} 80 0
eighty-ne-zero = ground arith

connect-bind_platforms_example :
    (Windows.connect os host 80 100 TcpSocket.create
      ≡ Connect.connect os host 80 100 TcpSocket.create)
    × (Windows.bind os host 80 TcpSocket.create ≡ Connect.bind os host 80 TcpSocket.create)
connect-bind_platforms_example =
    connect-bind_platforms os host 80 100 TcpSocket.create eighty-ne-zero

abbrev handlers : Handlers ℕ ℕ ℕ
handlers = record { on_read = λ r k w. w; on_write = λ r k w. w; on_disconnection = λ k w. w }

handlers-Keeps : Keeps handlers
handlers-Keeps = record {
  on_read = λ r k w l. l;
  on_write = λ r k w l. l;
  on_disconnection = λ k w l. l;
}

abbrev pipe : SelfPipe
pipe = record { read_fd = fd 3; write_fd = fd 4; pending = 0 }

abbrev service : IoService Event
service = IoService.create pipe

abbrev request : ReadRequest ℕ
request = record { size_to_read = 2; callback_async_read = some 1 }

abbrev happenings : List (Happening ℕ ℕ ℕ)
happenings =
    connects os host 80 0
    ∷ async_reads request
    ∷ read_event os (record { success = true; buffer = [] })
    ∷ []

create-history-Linked_example : Linked (history 1 handlers happenings (TcpClient.create service))
create-history-Linked_example = create-history-Linked 1 handlers happenings service handlers-Keeps

abbrev entry : TrackedSocket Event
entry = record {
  callback_read = some (client_read 1);
  is_executing_read = true;
  callback_write = none;
  is_executing_write = false;
  marked_for_untrack = false;
}

-- A connected client with a read request, and one with none.
abbrev reading_client : TcpClient ℕ ℕ ℕ
reading_client = record {
  socket = socket;
  is_connected = true;
  read_requests = request ∷ [];
  write_requests = [];
  disconnection_handler = none;
}

abbrev reading_world : World ℕ ℕ ℕ
reading_world = record {
  client = reading_client;
  service = record service { tracked = (fd 7, entry) ∷ [] };
}

abbrev quiet_world : World ℕ ℕ ℕ
quiet_world = record reading_world { client = record reading_client { read_requests = [] } }

reading_world-Linked : Linked reading_world
unfolding find
reading_world-Linked = record {
  opened = λ on. (refl, refl);
  polled = λ on. (refl, refl);
  cleared = λ off. absurd (ground (arith, off));
}

abbrev blank : ReadResult
blank = record { success = false; buffer = [] }

on_read_available-data_example :
    on_read_available os handlers blank reading_world
    ≡ call
        (handlers.on_read (record { success = true; buffer = 104 ∷ 105 ∷ [] }))
        (some 1)
        (popped [] reading_world)
on_read_available-data_example =
    on_read_available-data os handlers blank reading_world request [] 104 (105 ∷ [])
      reading_world-Linked refl refl

on_read_available-lost_example : on_read_available closed_os handlers blank reading_world ≡ (
    let answered =
      run_if_set
        (handlers.on_read (record { success = false; buffer = [] }))
        (some 1)
        (cut_off (popped [] reading_world)) in
    run_if_set handlers.on_disconnection answered.client.disconnection_handler answered)
on_read_available-lost_example =
    on_read_available-lost closed_os handlers blank reading_world request [] reading_world-Linked
      refl (inr refl)

on_read_available-no_request_example : on_read_available os handlers blank quiet_world ≡ (
    if blank.success
    then quiet_world
    else run_if_set handlers.on_disconnection none (cut_off quiet_world))
on_read_available-no_request_example =
    on_read_available-no_request os handlers blank quiet_world refl refl
