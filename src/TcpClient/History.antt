-- ===== src/TcpClient/History.antt =====
-- Any history of calls and events of a client, and what single ones come to.
use tacopie.Prelude.{
  ℕ, ◌≡◌, ◌⊎◌, inl, inr, true, false, List, [], ◌∷◌, Option, none, some, arith, refl, ap, ◌∙◌,
  Bool-cases,
}
use tacopie.TcpClient.{WriteResult, WriteRequest, ReadRequest, Event, ReadResult, World, TcpClient}
use tacopie.TcpClient.Linked.{
  Linked, disconnect-Linked, connect-Linked, async_read-Linked, async_write-Linked,
}
use tacopie.TcpClient.Answers.{IsClient, Keeps, on_read_available-Linked, on_write_available-Linked}
use tacopie.TcpClient.Events.{
  process_read, answer_read, unset_read, call, Handlers, on_read_available, on_write_available,
}
use tacopie.TcpSocket.{received, check_or_set_type, create_socket_if_necessary, TcpSocket, Os, recv}
use tacopie.TcpClient
use tacopie.TcpClient.Calls.{
  cut_off, disconnect-cut_off, run_if_set, call_disconnection_handler_lem,
}
use tacopie.IoService.{IoService}
use tacopie.Error.{Error, state_of, ok, err}

pub data Happening (R W H : Type 0) : Type 0 where
  connects : Os → List ℕ → ℕ → ℕ → Happening R W H
  disconnects : Option (IoService Event → IoService Event) → Happening R W H
  async_reads : ReadRequest R → Happening R W H
  async_writes : WriteRequest W → Happening R W H
  sets_handler : Option H → Happening R W H
  read_event : Os → ReadResult → Happening R W H
  write_event : Os → WriteResult → Happening R W H

recv-data :
    (os : Os) (size : ℕ) (s : TcpSocket) (b : ℕ) (bs : List ℕ)
    → IsClient s
    → os.recv s.m_fd size ≡ some (b ∷ bs)
    → recv os size s ≡ ok (b ∷ bs) s
unfolding recv create_socket_if_necessary check_or_set_type received
recv-data os size s b bs c got = ground arith

recv-failed :
    (os : Os) (size : ℕ) (s : TcpSocket)
    → IsClient s
    → (os.recv s.m_fd size ≡ none) ⊎ (os.recv s.m_fd size ≡ some [])
    → (e : Error) × (recv os size s ≡ err e s)
unfolding recv create_socket_if_necessary check_or_set_type received
recv-failed os size s c (inl lost) = (Error.recv_failure, ground arith)
recv-failed os size s c (inr closed) = (Error.closed_by_remote, ground arith)

module _ {R W H : Type 0} where
  call_lem :
      {K : Type 0} (run : K → World R W H → World R W H) (callback : Option K) (w : World R W H)
      → call run callback w ≡ run_if_set run callback w
  call_lem run none w = refl
  call_lem run (some callback) w = refl

  -- A call that throws leaves the state that it has then.
  pub happen : ℕ → Handlers R W H → Happening R W H → World R W H → World R W H
  happen this h (connects os host port timeout) w =
      state_of (TcpClient.connect os host port timeout w)
  happen this h (disconnects wait) w = TcpClient.disconnect wait w
  happen this h (async_reads request) w = state_of (TcpClient.async_read this request w)
  happen this h (async_writes request) w = state_of (TcpClient.async_write this request w)
  happen this h (sets_handler handler) w = TcpClient.set_on_disconnection_handler handler w
  happen this h (read_event os blank) w = on_read_available os h blank w
  happen this h (write_event os blank) w = on_write_available os h blank w

  pub history : ℕ → Handlers R W H → List (Happening R W H) → World R W H → World R W H
  history this h [] w = w
  history this h (x ∷ xs) w = history this h xs (happen this h x w)

  happen-Linked :
      (this : ℕ) (h : Handlers R W H) (x : Happening R W H) (w : World R W H)
      → Keeps h
      → Linked w
      → Linked (happen this h x w)
  unfolding happen TcpClient.set_on_disconnection_handler
  happen-Linked this h (connects os host port timeout) w keeps l =
      connect-Linked os host port timeout w l
  happen-Linked this h (disconnects wait) w keeps l = disconnect-Linked wait w l
  happen-Linked this h (async_reads request) w keeps l = async_read-Linked this request w l
  happen-Linked this h (async_writes request) w keeps l = async_write-Linked this request w l
  happen-Linked this h (sets_handler handler) w keeps l = ground arith
  happen-Linked this h (read_event os blank) w keeps l =
      on_read_available-Linked os h blank w keeps l
  happen-Linked this h (write_event os blank) w keeps l =
      on_write_available-Linked os h blank w keeps l

  history-Linked :
      (this : ℕ) (h : Handlers R W H) (xs : List (Happening R W H)) (w : World R W H)
      → Keeps h
      → Linked w
      → Linked (history this h xs w)
  unfolding history
  history-Linked this h [] w keeps l = l
  history-Linked this h (x ∷ xs) w keeps l =
      history-Linked this h xs (happen this h x w) keeps (happen-Linked this h x w keeps l)

  -- A new client, after any history of calls and events, whatever the system answers: while it is
  -- connected, its socket is open, of type CLIENT and tracked, with a read callback exactly if a read
  -- request waits and a write callback exactly if a write request waits; and while it is not, no
  -- request waits. The callbacks of the user are assumed to keep this, as the calls do.
  pub create-history-Linked :
      (this : ℕ) (h : Handlers R W H) (xs : List (Happening R W H)) (service : IoService Event)
      → Keeps h
      → Linked (history this h xs (TcpClient.create service))
  unfolding TcpClient.create
  create-history-Linked this h xs service keeps =
      history-Linked this h xs (TcpClient.create service) keeps (ground arith)

  abbrev pub popped : List (ReadRequest R) → World R W H → World R W H
  popped rest w = record w {
    client = record w.client { read_requests = rest };
    service = unset_read rest w.client.socket.m_fd w.service;
  }

  process_read-data :
      (os : Os) (blank : ReadResult) (w : World R W H) (request : ReadRequest R)
      (rest : List (ReadRequest R)) (b : ℕ) (bs : List ℕ)
      → Linked w
      → w.client.read_requests ≡ request ∷ rest
      → os.recv w.client.socket.m_fd request.size_to_read ≡ some (b ∷ bs)
      → process_read os blank w
        ≡ (popped rest w, record { success = true; buffer = b ∷ bs }, request.callback_async_read)
  unfolding process_read answer_read
  process_read-data os blank w request rest b bs l e got =
      ground (arith, recv-data os request.size_to_read w.client.socket b bs)

  process_read-failed :
      (os : Os) (blank : ReadResult) (w : World R W H) (request : ReadRequest R)
      (rest : List (ReadRequest R))
      → Linked w
      → w.client.read_requests ≡ request ∷ rest
      → (os.recv w.client.socket.m_fd request.size_to_read ≡ none)
        ⊎ (os.recv w.client.socket.m_fd request.size_to_read ≡ some [])
      → process_read os blank w ≡ (
        popped rest w,
        record { success = false; buffer = blank.buffer },
        request.callback_async_read,
      )
  unfolding process_read answer_read
  process_read-failed os blank w request rest l e lost =
      ground (arith, recv-failed os request.size_to_read w.client.socket)

  -- A read event with a request waiting and data to read: the request leaves the queue, its callback
  -- gets the data, and the client stays connected; no other callback is called.
  pub on_read_available-data :
      (os : Os) (h : Handlers R W H) (blank : ReadResult) (w : World R W H)
      (request : ReadRequest R) (rest : List (ReadRequest R)) (b : ℕ) (bs : List ℕ)
      → Linked w
      → w.client.read_requests ≡ request ∷ rest
      → os.recv w.client.socket.m_fd request.size_to_read ≡ some (b ∷ bs)
      → on_read_available os h blank w
        ≡ call
            (h.on_read (record { success = true; buffer = b ∷ bs }))
            request.callback_async_read
            (popped rest w)
  unfolding on_read_available
  on_read_available-data os h blank w request rest b bs l e got =
      rw (process_read-data os blank w request rest b bs l e got, on_read_available)

  Linked-connected :
      (w : World R W H) (request : ReadRequest R) (rest : List (ReadRequest R))
      → Linked w
      → w.client.read_requests ≡ request ∷ rest
      → w.client.is_connected ≡ true
  Linked-connected w request rest l e = ground (arith, Bool-cases w.client.is_connected)

  -- A read event with a request waiting on a connection that is at its end or broken: the client loses
  -- its requests and its socket and is no longer connected, the service untracks its descriptor; then the
  -- callback of the request gets a failure; and then the disconnection handler that the client has by
  -- then is called.
  pub on_read_available-lost :
      (os : Os) (h : Handlers R W H) (blank : ReadResult) (w : World R W H)
      (request : ReadRequest R) (rest : List (ReadRequest R))
      → Linked w
      → w.client.read_requests ≡ request ∷ rest
      → (os.recv w.client.socket.m_fd request.size_to_read ≡ none)
        ⊎ (os.recv w.client.socket.m_fd request.size_to_read ≡ some [])
      → on_read_available os h blank w ≡ (
          let answered =
            run_if_set
              (h.on_read (record { success = false; buffer = blank.buffer }))
              request.callback_async_read
              (cut_off (popped rest w)) in
          run_if_set h.on_disconnection answered.client.disconnection_handler answered)
  unfolding on_read_available
  on_read_available-lost os h blank w request rest l e lost =
      rw
        (
          process_read-failed os blank w request rest l e lost,
          on_read_available,
          disconnect-cut_off (popped rest w) (Linked-connected w request rest l e),
        )
        (call_disconnection_handler_lem h _
          ∙ ap (λ x. run_if_set h.on_disconnection x.client.disconnection_handler x)
              (call_lem (h.on_read (record { success = false; buffer = blank.buffer }))
                request.callback_async_read (cut_off (popped rest w))))
