-- ===== src/Session.antt =====
-- Session.cpp, without the receive loop: closing, sending and posting a receive. Each function is
-- one step: what other threads do between two accesses to its atomics is not modelled.
pub mod Rings
pub mod Lifecycle
pub mod Sending
pub mod Pending
pub mod Sound
pub mod Growth
use iocp_game_chat_server.Prelude.{
  ℕ, ◌+◌, ◌-◌, ◌/◌, ◌%◌, ◌^◌, Bool, true, false, not, Option, none, some, List, [], ◌∷◌, ◌++◌, ◌&&◌,
  ◌||◌, ltb, leb, ◌==◌, if◌then◌else◌, length, take, u16, u32,
}
use iocp_game_chat_server.Packet.{header_size, max_packet_size, pkt_sc_shutdown}
use iocp_game_chat_server.State.{
  World, Session, connected, closing, closed, is_connected, is_closed, recv, send, put_session,
  is_shutting_down,
}
use iocp_game_chat_server.RingBuffer
use iocp_game_chat_server.JobQueue.{enqueue_disconnect_job}

-- `Session::Session` and the members' initial values
unfoldable pub fresh_session : ℕ → Session
fresh_session sock = record {
  sock = some sock;
  state = connected;
  game_cleanup_done = false;
  pending_io = 0;
  destroying = false;
  recv_posted = false;
  close_issued = false;
  recv_ring = RingBuffer.fresh;
}

-- `Session::Close`
unfoldable pub close : ℕ → World → World
close s w =
    let x = w.sessions s in
    if x.close_issued
    then w
    else put_session w s (record x { close_issued = true; sock = none; state = closed })

-- `OnSessionDisconnected` of Protocol.cpp
unfoldable pub on_session_disconnected : ℕ → World → World
on_session_disconnected s w = enqueue_disconnect_job s w

-- `Session::RequestClose`
unfoldable pub request_close : ℕ → World → World
unfolding close on_session_disconnected
request_close s w =
    let x = w.sessions s in
    if is_connected x.state
    then on_session_disconnected s (close s (put_session w s (record x { state = closing })))
    else w

-- `pendingIO.fetch_add(1)` and `pendingIO.fetch_sub(1)`
abbrev pub io_begun : Session → Session
io_begun x = record x { pending_io = u32 (x.pending_io + 1) }

abbrev pub io_ended : Session → Session
io_ended x = record x { pending_io = u32 (x.pending_io + 2 ^ 32 - 1) }

-- `Session::PostSend`
unfoldable pub post_send : ℕ → List ℕ → World → World
unfolding request_close
post_send s bytes w =
    let x = w.sessions s in
    let w' = record w { io_calls = w.io_calls + 1 } in
    if is_closed x.state
    then w
    else if length bytes == 0 || ltb max_packet_size (length bytes)
    then w
    else if w.accepts w.io_calls
    then record (put_session w' s (io_begun x)) {
      in_flight = w.in_flight ++ ((s, send) ∷ []);
      sent = w.sent ++ ((s, bytes) ∷ []);
    }
    else request_close s (put_session w' s (io_ended (io_begun x)))

-- `memcpy` of a `PacketHeader`: two little-endian 16-bit fields
unfoldable pub header_bytes : ℕ → ℕ → List ℕ
header_bytes size id = size % 256 ∷ (size / 256 % 256) ∷ (id % 256) ∷ (id / 256 % 256) ∷ []

-- The packet that `SendPacket` builds.
unfoldable pub packet_bytes : ℕ → List ℕ → ℕ → List ℕ
packet_bytes id body size = header_bytes (header_size + size) id ++ take size body

-- `Session::SendPacket`
unfoldable pub send_packet : ℕ → ℕ → Option (List ℕ) → ℕ → World → World
send_packet s id body size w =
    if not (id == pkt_sc_shutdown)
      && (not (is_connected (w.sessions s).state) || is_shutting_down w)
    then w
    else if ltb max_packet_size (header_size + size)
    then w
    else elim body [
      | none ↦ if ltb 0 size then w else post_send s (packet_bytes id [] size) w
      | some bytes ↦ post_send s (packet_bytes id bytes size) w
    ]

-- `Session::PostRecv`
unfoldable pub post_recv : ℕ → World → World
post_recv s w =
    let x = w.sessions s in
    let w' = record w { io_calls = w.io_calls + 1 } in
    if not (is_connected x.state)
    then w
    else if x.recv_posted
    then w
    else if w.accepts w.io_calls
    then record (put_session w' s (io_begun (record x { recv_posted = true }))) {
      in_flight = w.in_flight ++ ((s, recv) ∷ []);
    }
    else request_close s (put_session w' s (io_ended (io_begun x)))

-- `Session::OnSendComplete`
unfoldable pub on_send_complete : ℕ → ℕ → Bool → World → World
on_send_complete s bytes success w =
    let w' = put_session w s (io_ended (w.sessions s)) in
    if not success || bytes == 0 then request_close s w' else w'

-- `Session::TryBeginDestroy`
unfoldable pub try_begin_destroy : ℕ → World → World × Bool
try_begin_destroy s w =
    let x = w.sessions s in
    if x.destroying then (w, false) else (put_session w s (record x { destroying = true }), true)
