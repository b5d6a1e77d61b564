-- ===== src/TcpClient/Events.antt =====
-- tcp_client.cpp: what a client does when the service reports that its socket can be read or
-- written.
use mathlib.Core.List.{[], ◌∷◌}
use tacopie.TcpClient.{Event, ReadRequest, WriteRequest, disconnect, ReadResult, WriteResult, World}
use tacopie.TcpSocket.{TcpSocket, Os, recv, send}
use tacopie.Typedefs.{Fd}
use tacopie.IoService.{IoService}
use tacopie.Error.{ok, err, Outcome}
use tacopie.Prelude.{length, false, ◌∷◌, none, true, some, ℕ, Bool, List, Option}
use tacopie.IoService.Track.{set_rd_callback, set_wr_callback}

-- The result of the system call, and the socket after it. `blank` is the content of a result that
-- the source leaves uninitialised.
abbrev pub read_outcome : ReadResult → Outcome TcpSocket (List ℕ) → ReadResult × TcpSocket
read_outcome blank (ok bytes s) = (record { success = true; buffer = bytes }, s)
read_outcome blank (err e s) = (record blank { success = false }, s)

abbrev pub write_outcome : WriteResult → Outcome TcpSocket ℕ → WriteResult × TcpSocket
write_outcome blank (ok size s) = (record { success = true; size = size }, s)
write_outcome blank (err e s) = (record blank { success = false }, s)

-- No callback is left with the service once the last request is taken.
abbrev pub unset_read : {R : Type 0} → List (ReadRequest R) → Fd → IoService Event → IoService Event
unset_read [] f s = set_rd_callback f none s
unset_read (request ∷ rest) f s = s

abbrev pub unset_write :
    {W : Type 0} → List (WriteRequest W) → Fd → IoService Event → IoService Event
unset_write [] f s = set_wr_callback f none s
unset_write (request ∷ rest) f s = s

-- What the callbacks of the user do.
pub record Handlers (R W H : Type 0) : Type 0 where
  pub on_read : ReadResult → R → World R W H → World R W H
  pub on_write : WriteResult → W → World R W H → World R W H
  pub on_disconnection : H → World R W H → World R W H

module _ {R W H : Type 0} where
  unfoldable pub answer_read :
      Os → ReadResult → List (ReadRequest R) → World R W H → World R W H × ReadResult × Option R
  answer_read os blank [] w = (w, blank, none)
  answer_read os blank (request ∷ rest) w =
      let r = read_outcome blank (recv os request.size_to_read w.client.socket) in
      (
        record {
          client = record w.client { socket = r.1; read_requests = rest };
          service = unset_read rest r.1.m_fd w.service;
        },
        r.0,
        request.callback_async_read,
      )

  unfoldable pub process_read : Os → ReadResult → World R W H → World R W H × ReadResult × Option R
  unfolding answer_read
  process_read os blank w = answer_read os blank w.client.read_requests w

  unfoldable pub answer_write :
      Os → WriteResult → List (WriteRequest W) → World R W H → World R W H × WriteResult × Option W
  answer_write os blank [] w = (w, blank, none)
  answer_write os blank (request ∷ rest) w =
      let r =
        write_outcome blank (send os request.buffer (length request.buffer) w.client.socket) in
      (
        record {
          client = record w.client { socket = r.1; write_requests = rest };
          service = unset_write rest r.1.m_fd w.service;
        },
        r.0,
        request.callback_async_write,
      )

  unfoldable pub process_write :
      Os → WriteResult → World R W H → World R W H × WriteResult × Option W
  unfolding answer_write
  process_write os blank w = answer_write os blank w.client.write_requests w

  -- A callback, if it is set. It may call the client and the service.
  abbrev pub call :
      {K : Type 0} → (K → World R W H → World R W H) → Option K → World R W H → World R W H
  call run none w = w
  call run (some callback) w = run callback w

  abbrev pub disconnect_unless : Bool → World R W H → World R W H
  disconnect_unless true w = w
  disconnect_unless false w = disconnect none w

  unfoldable pub call_disconnection_handler : Handlers R W H → World R W H → World R W H
  call_disconnection_handler h w = call h.on_disconnection w.client.disconnection_handler w

  abbrev pub handler_unless : Bool → Handlers R W H → World R W H → World R W H
  handler_unless true h w = w
  handler_unless false h w = call_disconnection_handler h w

  unfoldable pub on_read_available : Os → Handlers R W H → ReadResult → World R W H → World R W H
  on_read_available os h blank w =
      let (w₁, result, callback) = process_read os blank w in
      let w₂ = disconnect_unless result.success w₁ in
      let w₃ = call (h.on_read result) callback w₂ in handler_unless result.success h w₃

  unfoldable pub on_write_available : Os → Handlers R W H → WriteResult → World R W H → World R W H
  on_write_available os h blank w =
      let (w₁, result, callback) = process_write os blank w in
      let w₂ = disconnect_unless result.success w₁ in
      let w₃ = call (h.on_write result) callback w₂ in handler_unless result.success h w₃
