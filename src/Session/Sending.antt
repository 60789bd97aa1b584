-- ===== src/Session/Sending.antt =====
-- What reaches WSASend: whole packets whose headers tell their lengths.
use iocp_game_chat_server.Prelude.{
  ℕ, ◌+◌, ◌*◌, ◌≤◌, ◌≡◌, Option, none, some, inl, inr, ◌⊎◌, List, [], ◌∷◌, ◌++◌, arith, length,
  take, length-take, get_or,
}
use iocp_game_chat_server.Packet.{header_size, max_packet_size}
use iocp_game_chat_server.State.{World}
use iocp_game_chat_server.JobQueue.{enqueue_disconnect_job}
use iocp_game_chat_server.Session.{
  request_close, post_send, send_packet, packet_bytes, header_bytes,
}

-- A buffer that is one packet: its first two bytes are its length, which is in range.
pub record IsFramed (bytes : List ℕ) : Type 0 where
  pub enough : header_size ≤ length bytes
  pub within : length bytes ≤ max_packet_size
  pub told : get_or bytes 0 0 + get_or bytes 1 0 * 256 ≡ length bytes

abbrev pub AllFramed : List (ℕ × List ℕ) → Type 0
AllFramed [] = Unit {0}
AllFramed ((s, bytes) ∷ sent) = IsFramed bytes × AllFramed sent

AllFramed-append :
    (sent : List (ℕ × List ℕ)) (s : ℕ) (bytes : List ℕ)
    → AllFramed sent
    → IsFramed bytes
    → AllFramed (sent ++ ((s, bytes) ∷ []))
AllFramed-append [] s bytes a f = (f, tt)
AllFramed-append ((r, b) ∷ sent) s bytes (one, a) f = (one, AllFramed-append sent s bytes a f)

pub sent-request_close : (s : ℕ) (w : World) → (request_close s w).sent ≡ w.sent
unfolding request_close enqueue_disconnect_job
sent-request_close s w = ground arith

sent-post_send :
    (s : ℕ) (bytes : List ℕ) (w : World)
    → ((post_send s bytes w).sent ≡ w.sent)
      ⊎ ((post_send s bytes w).sent ≡ w.sent ++ ((s, bytes) ∷ []))
unfolding post_send enqueue_disconnect_job
sent-post_send s bytes w = ground arith

post_send-AllFramed :
    (s : ℕ) (bytes : List ℕ) (w : World)
    → AllFramed w.sent
    → IsFramed bytes
    → AllFramed (post_send s bytes w).sent
post_send-AllFramed s bytes w a f = elim (sent-post_send s bytes w) [
  | inl e ↦ rw e a
  | inr e ↦ rw e (AllFramed-append w.sent s bytes a f)
]

pub packet_bytes-IsFramed :
    (id : ℕ) (body : List ℕ) (size : ℕ)
    → size ≤ length body
    → header_size + size ≤ max_packet_size
    → IsFramed (packet_bytes id body size)
unfolding packet_bytes header_bytes
packet_bytes-IsFramed id body size h fits =
    let e : length (take size body) ≡ size = omega (arith, length-take size body) in
    record { enough = omega arith; within = omega (arith, e); told = omega (arith, e) }

-- The bytes that a call of `SendPacket` offers: `dataSize` of them lie behind `data`.
abbrev pub Offers : Option (List ℕ) → ℕ → Type 0
Offers none size = size ≡ 0
Offers (some body) size = size ≤ length body

-- Where all that reached WSASend were whole packets of 4 to 4096 bytes with their own length in the
-- header, a call of `SendPacket` keeps it so, provided that `dataSize` bytes lie behind `data`.
pub send_packet-AllFramed :
    (s id size : ℕ) (body : Option (List ℕ)) (w : World)
    → Offers body size
    → AllFramed w.sent
    → AllFramed (send_packet s id body size w).sent
unfolding send_packet
send_packet-AllFramed s id size none w h a = ground (
  arith,
  a,
  post_send-AllFramed s (packet_bytes id [] size) w a,
  packet_bytes-IsFramed id [] size,
)
send_packet-AllFramed s id size (some body) w h a = ground (
  arith,
  a,
  post_send-AllFramed s (packet_bytes id body size) w a,
  packet_bytes-IsFramed id body size,
)
