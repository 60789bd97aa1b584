-- ===== src/Receive.antt =====
-- `Session::OnRecvComplete`: the receive loop that cuts the stream into packets.
pub mod Frames
pub mod Loop
pub mod Split
pub mod Stream
pub mod Chunks
pub mod Total
pub mod Keeps
use iocp_game_chat_server.Prelude.{
  ℕ, zero, suc, ◌+◌, ◌-◌, ◌*◌, Bool, true, false, not, Option, none, some, List, [], ◌||◌, ltb,
  ◌==◌, if◌then◌else◌, length, get_or,
}
use iocp_game_chat_server.Packet.{PacketHeader, header_size, max_packet_size}
use iocp_game_chat_server.State.{World, is_connected, put_session}
use iocp_game_chat_server.RingBuffer
use iocp_game_chat_server.Session.{request_close, post_recv, io_ended}
use iocp_game_chat_server.Protocol.{process_packet}

-- `BUFFER_SIZE`, the length that `PostRecv` gives to WSARecv
abbrev pub recv_buffer_size : ℕ
recv_buffer_size = 4096

-- `Peek(&header, sizeof(header))`, read as two little-endian 16-bit fields
unfoldable pub header_of : List ℕ → PacketHeader
header_of bytes = record {
  size = get_or bytes 0 0 + get_or bytes 1 0 * 256;
  id = get_or bytes 2 0 + get_or bytes 3 0 * 256;
}

abbrev pub skip_in : ℕ → ℕ → World → World
skip_in s n w =
    let x = w.sessions s in put_session w s (record x { recv_ring = RingBuffer.skip x.recv_ring n })

-- What one round of the loop does: it breaks, returns from the handler, or goes round again.
pub data Round : Type 0 where
  break : World → Round
  return : World → Round
  again : World → Round

-- The round from the header on: the sizes are checked, the header is skipped, the body is copied,
-- the packet is processed, and the body is skipped.
pub take_packet : ℕ → PacketHeader → World → Round
take_packet s header w =
    if ltb header.size header_size || ltb max_packet_size header.size
    then return (request_close s w)
    else if not (RingBuffer.has (w.sessions s).recv_ring header.size)
    then break w
    else let w' = skip_in s header_size w in
      let body_size = header.size - header_size in
      if body_size == 0
      then again (skip_in s 0 (process_packet s (record { header = header; body = [] }) w'))
      else elim (RingBuffer.peek (w'.sessions s).recv_ring body_size) [
        | none ↦ return (request_close s w')
        | some bytes ↦
            again
              (skip_in s body_size (process_packet s (record { header = header; body = bytes }) w'))
      ]

-- The body of `while (true)`
pub round : ℕ → World → Round
round s w =
    if not (RingBuffer.has (w.sessions s).recv_ring header_size)
    then break w
    else elim (RingBuffer.peek (w.sessions s).recv_ring header_size) [
      | none ↦ break w
      | some bytes ↦ take_packet s (header_of bytes) w
    ]

-- The loop on fuel; `none` means that the fuel ran out. The flag tells whether the loop was left by
-- `break`, so that `PostRecv` follows.
pub receive_loop : ℕ → ℕ → World → Option (World × Bool)
receive_loop zero s w = none
receive_loop (suc fuel) s w = elim (round s w) [
  | break w' ↦ some (w', true)
  | return w' ↦ some (w', false)
  | again w' ↦ receive_loop fuel s w'
]

-- Each round takes at least a header of four bytes off the ring.
abbrev pub loop_fuel : ℕ → World → ℕ
loop_fuel s w = suc (w.sessions s).recv_ring.stored_bytes

abbrev pub finish : ℕ → Option (World × Bool) → Option World
finish s none = none
finish s (some (w, broke)) = some (if broke then post_recv s w else w)

-- `Session::OnRecvComplete`: `bytes` are the received ones, in `recvContext.buffer`.
unfoldable pub on_recv_complete : ℕ → List ℕ → Bool → World → Option World
on_recv_complete s bytes success w =
    let x = w.sessions s in
    let w₁ = put_session w s (io_ended (record x { recv_posted = false })) in
    let (ring, written) = RingBuffer.write x.recv_ring bytes in
    let w₂ = put_session w s (io_ended (record x { recv_posted = false; recv_ring = ring })) in
    if not success || length bytes == 0
    then some (request_close s w₁)
    else if not (is_connected x.state)
    then some w₁
    else if not written
    then some (request_close s w₁)
    else finish s (receive_loop (loop_fuel s w₂) s w₂)
