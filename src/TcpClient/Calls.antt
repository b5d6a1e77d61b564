-- ===== src/TcpClient/Calls.antt =====
-- What the calls of a client come to on each of its two states, and a read event with no request.
use tacopie.Prelude.{
  ℕ, ◌≡◌, true, false, [], Option, none, arith, ap, ◌∙◌, if◌then◌else◌, refl, inl, inr, some,
  Option-cases,
}
use tacopie.Typedefs.{invalid}
use tacopie.TcpClient.{WriteRequest, Event, ReadRequest, ReadResult, World, TcpClient}
use tacopie.TcpClient.Events.{
  process_read, answer_read, call_disconnection_handler, Handlers, on_read_available,
}
use tacopie.TcpSocket.{TcpSocket, Os, unknown}
use tacopie.TcpSocket
use tacopie.TcpClient
use tacopie.IoService.{IoService}
use tacopie.IoService.Track.{untrack}
use tacopie.Error.{Error, err}

module _ {R W H : Type 0} where
  -- Calls that do not fit the state throw and change nothing: `async_read` and `async_write` on a
  -- client that is not connected; and `disconnect` does nothing on such a one.
  pub misplaced_calls :
      (this : ℕ) (read : ReadRequest R) (write : WriteRequest W)
      (wait : Option (IoService Event → IoService Event)) (w : World R W H)
      → w.client.is_connected ≡ false
      → (TcpClient.async_read this read w ≡ err Error.disconnected w)
        × (TcpClient.async_write this write w ≡ err Error.disconnected w)
        × (TcpClient.disconnect wait w ≡ w)
  unfolding TcpClient.async_read TcpClient.async_write TcpClient.disconnect
  misplaced_calls this read write wait w off = (
    rw (off, TcpClient.async_read),
    rw (off, TcpClient.async_write),
    rw (off, TcpClient.disconnect),
  )

  -- `disconnect` of a connected client: it is not connected, has no request and no open socket, and
  -- the service untracks the descriptor that it had; a second `disconnect` changes nothing.
  pub disconnect_lem :
      (wait : Option (IoService Event → IoService Event)) (w : World R W H)
      → w.client.is_connected ≡ true
      → let w' = TcpClient.disconnect wait w in
        (w'.client.is_connected ≡ false)
        × (w'.client.read_requests ≡ [])
        × (w'.client.write_requests ≡ [])
        × (w'.client.socket.m_fd ≡ invalid)
        × (w'.service ≡ TcpClient.waited wait (untrack w.client.socket.m_fd w.service))
        × (TcpClient.disconnect wait w' ≡ w')
  unfolding TcpClient.disconnect TcpSocket.close
  disconnect_lem wait w on = ground arith

  -- A client cut off: not connected, no requests, no open socket, and its descriptor untracked.
  abbrev pub cut_off : World R W H → World R W H
  cut_off w = record {
    client = record w.client {
      is_connected = false;
      read_requests = [];
      write_requests = [];
      socket = record w.client.socket { m_fd = invalid; type = unknown };
    };
    service = untrack w.client.socket.m_fd w.service;
  }

  pub disconnect-cut_off :
      (w : World R W H) → w.client.is_connected ≡ true → TcpClient.disconnect none w ≡ cut_off w
  unfolding TcpClient.disconnect TcpSocket.close
  disconnect-cut_off w on = rw (on) refl

  -- A callback of the user that runs if it is there.
  abbrev pub run_if_set :
      {K : Type 0} → (K → World R W H → World R W H) → Option K → World R W H → World R W H
  run_if_set run none w = w
  run_if_set run (some callback) w = run callback w

  pub call_disconnection_handler_lem :
      (h : Handlers R W H) (w : World R W H)
      → call_disconnection_handler h w
        ≡ run_if_set h.on_disconnection w.client.disconnection_handler w
  unfolding call_disconnection_handler
  call_disconnection_handler_lem h w = elim (Option-cases w.client.disconnection_handler) [
    | inl e ↦ rw (e) refl
    | inr (handler, e) ↦ rw (e) refl
  ]

  no_request-branches :
      (os : Os) (h : Handlers R W H) (blank : ReadResult) (w : World R W H)
      → w.client.read_requests ≡ []
      → w.client.is_connected ≡ true
      → on_read_available os h blank w
        ≡ (if blank.success then w else call_disconnection_handler h (TcpClient.disconnect none w))
  unfolding on_read_available process_read answer_read
  no_request-branches os h blank w empty on = ground arith

  -- A read event with no request waiting: the result that the source leaves uninitialised decides.
  -- If its `success` happens to be true nothing happens; and if it happens to be false a connected
  -- client loses its requests and its socket, the service untracks its descriptor, and its
  -- disconnection handler is called, if it has one.
  pub on_read_available-no_request :
      (os : Os) (h : Handlers R W H) (blank : ReadResult) (w : World R W H)
      → w.client.read_requests ≡ []
      → w.client.is_connected ≡ true
      → on_read_available os h blank w ≡ (
          if blank.success
          then w
          else run_if_set h.on_disconnection w.client.disconnection_handler (cut_off w))
  on_read_available-no_request os h blank w empty on =
      no_request-branches os h blank w empty on
      ∙ ap (λ u. if blank.success then w else call_disconnection_handler h u)
          (disconnect-cut_off w on)
      ∙ ap (λ u. if blank.success then w else u) (call_disconnection_handler_lem h (cut_off w))
