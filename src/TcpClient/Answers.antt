-- ===== src/TcpClient/Answers.antt =====
-- The events of a client: the invariant, and who is called with what.
use tacopie.Prelude.{
  ℕ, ◌≡◌, refl, ◌∙◌, Bool, true, false, List, [], ◌∷◌, Option, none, some, arith, length,
}
use tacopie.TcpClient.{
  ReadRequest, WriteRequest, ReadResult, WriteResult, ReadRequest, ReadResult, World,
}
use tacopie.TcpClient.Linked.{Linked, disconnect-Linked}
use tacopie.TcpClient.Events.{
  read_outcome, write_outcome, call, disconnect_unless, handler_unless, call_disconnection_handler,
  process_read, answer_read, process_write, answer_write, Handlers, on_read_available,
  on_write_available,
}
use tacopie.TcpSocket.{
  received, sent, check_or_set_type, create_socket_if_necessary, is_valid, client, TcpSocket, Os,
  recv, send,
}
use tacopie.Typedefs.{find, find-assign, fd_eq_refl}
use tacopie.Error.{state_of, ok, err, Outcome}
use tacopie.IoService.Track.{entry_or_fresh, set_wr_callback, set_rd_callback}

-- recv and send leave an open client socket as it is.
abbrev pub IsClient : TcpSocket → Type 0
IsClient s = (is_valid s.m_fd ≡ true) × (s.type ≡ client)

recv-keeps : (os : Os) (size : ℕ) (s : TcpSocket) → IsClient s → state_of (recv os size s) ≡ s
unfolding recv create_socket_if_necessary check_or_set_type received
recv-keeps os size s c = ground arith

send-keeps :
    (os : Os) (bytes : List ℕ) (size : ℕ) (s : TcpSocket)
    → IsClient s
    → state_of (send os bytes size s) ≡ s
unfolding send create_socket_if_necessary check_or_set_type sent
send-keeps os bytes size s c = ground arith

read_outcome-state :
    (blank : ReadResult) (r : Outcome TcpSocket (List ℕ)) → (read_outcome blank r).1 ≡ state_of r
read_outcome-state blank (ok bytes s) = refl
read_outcome-state blank (err e s) = refl

write_outcome-state :
    (blank : WriteResult) (r : Outcome TcpSocket ℕ) → (write_outcome blank r).1 ≡ state_of r
write_outcome-state blank (ok size s) = refl
write_outcome-state blank (err e s) = refl

module _ {R W H : Type 0} where
  -- A client with a request is connected, so recv leaves its socket alone.
  read_socket :
      (os : Os) (blank : ReadResult) (size : ℕ) (w : World R W H) {request : ReadRequest R}
      {rest : List (ReadRequest R)}
      → w.client.read_requests ≡ request ∷ rest
      → Linked w
      → (read_outcome blank (recv os size w.client.socket)).1 ≡ w.client.socket
  read_socket os blank size w e l =
      read_outcome-state blank (recv os size w.client.socket)
      ∙ recv-keeps os size w.client.socket (ground arith)

  write_socket :
      (os : Os) (blank : WriteResult) (bytes : List ℕ) (size : ℕ) (w : World R W H)
      {request : WriteRequest W} {rest : List (WriteRequest W)}
      → w.client.write_requests ≡ request ∷ rest
      → Linked w
      → (write_outcome blank (send os bytes size w.client.socket)).1 ≡ w.client.socket
  write_socket os blank bytes size w e l =
      write_outcome-state blank (send os bytes size w.client.socket)
      ∙ send-keeps os bytes size w.client.socket (ground arith)

  answer_read-Linked :
      (os : Os) (blank : ReadResult) (requests : List (ReadRequest R)) (w : World R W H)
      → w.client.read_requests ≡ requests
      → Linked w
      → Linked (answer_read os blank requests w).0
  unfolding answer_read set_rd_callback
  answer_read-Linked os blank [] w e l = l
  answer_read-Linked os blank (request ∷ []) w e l =
      rw (read_socket os blank request.size_to_read w e l) (
        ground (
          arith,
          find-assign w.client.socket.m_fd w.client.socket.m_fd
              (record (entry_or_fresh (find w.client.socket.m_fd w.service.tracked)) {
                callback_read = none;
              })
              w.service.tracked,
          fd_eq_refl w.client.socket.m_fd,
        ))
  answer_read-Linked os blank (request ∷ second ∷ rest) w e l =
      rw (read_socket os blank request.size_to_read w e l) (ground arith)

  answer_write-Linked :
      (os : Os) (blank : WriteResult) (requests : List (WriteRequest W)) (w : World R W H)
      → w.client.write_requests ≡ requests
      → Linked w
      → Linked (answer_write os blank requests w).0
  unfolding answer_write set_wr_callback
  answer_write-Linked os blank [] w e l = l
  answer_write-Linked os blank (request ∷ []) w e l =
      rw (write_socket os blank request.buffer (length request.buffer) w e l) (
        ground (
          arith,
          find-assign w.client.socket.m_fd w.client.socket.m_fd
              (record (entry_or_fresh (find w.client.socket.m_fd w.service.tracked)) {
                callback_write = none;
              })
              w.service.tracked,
          fd_eq_refl w.client.socket.m_fd,
        ))
  answer_write-Linked os blank (request ∷ second ∷ rest) w e l =
      rw (write_socket os blank request.buffer (length request.buffer) w e l) (ground arith)

  -- The callbacks of the user keep the invariant.
  pub record Keeps (h : Handlers R W H) : Type 0 where
    pub on_read : (r : ReadResult) (k : R) (w : World R W H) → Linked w → Linked (h.on_read r k w)
    pub on_write :
        (r : WriteResult) (k : W) (w : World R W H) → Linked w → Linked (h.on_write r k w)
    pub on_disconnection : (k : H) (w : World R W H) → Linked w → Linked (h.on_disconnection k w)

  call-Linked :
      {K : Type 0} (run : K → World R W H → World R W H) (callback : Option K) (w : World R W H)
      → ((k : K) (u : World R W H) → Linked u → Linked (run k u))
      → Linked w
      → Linked (call run callback w)
  call-Linked run none w keeps l = l
  call-Linked run (some k) w keeps l = keeps k w l

  disconnect_unless-Linked :
      (b : Bool) (w : World R W H) → Linked w → Linked (disconnect_unless b w)
  disconnect_unless-Linked true w l = l
  disconnect_unless-Linked false w l = disconnect-Linked none w l

  handler_unless-Linked :
      (b : Bool) (h : Handlers R W H) (w : World R W H)
      → Keeps h
      → Linked w
      → Linked (handler_unless b h w)
  unfolding call_disconnection_handler
  handler_unless-Linked true h w keeps l = l
  handler_unless-Linked false h w keeps l =
      call-Linked h.on_disconnection w.client.disconnection_handler w keeps.on_disconnection l

  pub on_read_available-Linked :
      (os : Os) (h : Handlers R W H) (blank : ReadResult) (w : World R W H)
      → Keeps h
      → Linked w
      → Linked (on_read_available os h blank w)
  unfolding on_read_available process_read
  on_read_available-Linked os h blank w keeps l = handler_unless-Linked _ h _ keeps (
      call-Linked (h.on_read (process_read os blank w).1) (process_read os blank w).2 _
        (keeps.on_read _)
        (disconnect_unless-Linked _ _
          (answer_read-Linked os blank w.client.read_requests w refl l)))

  pub on_write_available-Linked :
      (os : Os) (h : Handlers R W H) (blank : WriteResult) (w : World R W H)
      → Keeps h
      → Linked w
      → Linked (on_write_available os h blank w)
  unfolding on_write_available process_write
  on_write_available-Linked os h blank w keeps l = handler_unless-Linked _ h _ keeps (
      call-Linked (h.on_write (process_write os blank w).1) (process_write os blank w).2 _
        (keeps.on_write _)
        (disconnect_unless-Linked _ _
          (answer_write-Linked os blank w.client.write_requests w refl l)))
