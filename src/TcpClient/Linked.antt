-- ===== src/TcpClient/Linked.antt =====
-- The queues of a client and the callbacks that the service has for it fit together.
use tacopie.Prelude.{
  ℕ, ◌≡◌, refl, Bool, true, false, List, [], ◌∷◌, ◌++◌, Option, none, some, arith, if◌then◌else◌,
  is_set,
}
use tacopie.TcpClient.{
  client_write, WriteRequest, client_read, ReadRequest, Event, World, TcpClient,
}
use tacopie.TcpSocket.{is_valid, TcpSocket, Os, recv, send}
use tacopie.Error.{Error}
use tacopie.TcpSocket.{client, server, unknown}
use tacopie.TcpSocket
use tacopie.TcpClient
use tacopie.Typedefs.{find, find-assign, fd_eq_refl}
use tacopie.IoService.{TrackedSocket, IoService}
use tacopie.Error.{state_of, ok, err, Outcome}
use tacopie.Prelude.{is_set, arith, refl, some, false, true, ℕ, ◌++◌, Bool, List, Option, ◌≡◌}
use tacopie.IoService.Track.{set_wr_callback, track, entry_or_fresh, set_rd_callback}
use tacopie.TcpSocket.Connecting.{ConnectEnds, connect-ConnectEnds}

abbrev pub has_some : {A : Type 0} → List A → Bool
has_some [] = false
has_some (x ∷ xs) = true

has_some-snoc : {A : Type 0} (xs : List A) (x : A) → has_some (xs ++ x ∷ []) ≡ true
has_some-snoc [] x = refl
has_some-snoc (y ∷ xs) x = refl

-- The service has a read callback exactly if a read request waits, and so for writing.
abbrev pub Polled : Bool → Bool → Option (TrackedSocket Event) → Type 0
Polled reads writes none = ⊥
Polled reads writes (some t) = (is_set t.callback_read ≡ reads) × (is_set t.callback_write ≡ writes)

-- A connected client has an open socket of type CLIENT that is tracked; a client that is not
-- connected has no request.
pub record Linked {R W H : Type 0} (w : World R W H) : Type 0 where
  pub opened :
      w.client.is_connected ≡ true
      → (is_valid w.client.socket.m_fd ≡ true) × (w.client.socket.type ≡ client)
  pub polled :
      w.client.is_connected ≡ true
      → Polled
          (has_some w.client.read_requests)
          (has_some w.client.write_requests)
          (find w.client.socket.m_fd w.service.tracked)
  pub cleared :
      w.client.is_connected ≡ false → (w.client.read_requests ≡ []) × (w.client.write_requests ≡ [])

module _ {R W H : Type 0} where
  connected_world-Linked :
      (host : List ℕ) (port : ℕ) (w : World R W H) (r : Outcome TcpSocket (Unit {0}))
      → w.client.is_connected ≡ false
      → Linked w
      → ConnectEnds host port r
      → Linked (state_of (TcpClient.connected_world w r))
  unfolding track TcpSocket.close
  connected_world-Linked host port w (ok a s) off l ends = ground (
    arith,
    find-assign s.m_fd s.m_fd
        (record {
          callback_read = none;
          is_executing_read = false;
          callback_write = none;
          is_executing_write = false;
          marked_for_untrack = false;
        })
        w.service.tracked,
    fd_eq_refl s.m_fd,
  )
  connected_world-Linked host port w (err e s) off l ends = ground arith

  pub connect-Linked :
      (os : Os) (host : List ℕ) (port timeout : ℕ) (w : World R W H)
      → Linked w
      → Linked (state_of (TcpClient.connect os host port timeout w))
  unfolding TcpClient.connect
  connect-Linked os host port timeout w l = by_flag w.client.is_connected refl
    where
      connecting : Outcome (World R W H) (Unit {0})
      connecting =
          TcpClient.connected_world w
            (TcpSocket.Connect.connect os host port timeout w.client.socket)

      by_flag :
          (b : Bool)
          → w.client.is_connected ≡ b
          → Linked (state_of (if b then err Error.already_connected w else connecting))
      by_flag true on = l
      by_flag false off =
          connected_world-Linked host port w
            (TcpSocket.Connect.connect os host port timeout w.client.socket) off l
            (connect-ConnectEnds os host port timeout w.client.socket)

  pub disconnect-Linked :
      (wait : Option (IoService Event → IoService Event)) (w : World R W H)
      → Linked w
      → Linked (TcpClient.disconnect wait w)
  unfolding TcpClient.disconnect
  disconnect-Linked wait w l = ground arith

  pub async_read-Linked :
      (this : ℕ) (request : ReadRequest R) (w : World R W H)
      → Linked w
      → Linked (state_of (TcpClient.async_read this request w))
  unfolding TcpClient.async_read set_rd_callback
  async_read-Linked this request w l = ground (
    arith,
    has_some-snoc w.client.read_requests request,
    find-assign w.client.socket.m_fd w.client.socket.m_fd
        (record (entry_or_fresh (find w.client.socket.m_fd w.service.tracked)) {
          callback_read = some (client_read this);
        })
        w.service.tracked,
    fd_eq_refl w.client.socket.m_fd,
  )

  pub async_write-Linked :
      (this : ℕ) (request : WriteRequest W) (w : World R W H)
      → Linked w
      → Linked (state_of (TcpClient.async_write this request w))
  unfolding TcpClient.async_write set_wr_callback
  async_write-Linked this request w l = ground (
    arith,
    has_some-snoc w.client.write_requests request,
    find-assign w.client.socket.m_fd w.client.socket.m_fd
        (record (entry_or_fresh (find w.client.socket.m_fd w.service.tracked)) {
          callback_write = some (client_write this);
        })
        w.service.tracked,
    fd_eq_refl w.client.socket.m_fd,
  )
