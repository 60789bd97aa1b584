-- ===== src/Session/Pending.antt =====
-- `pendingIO` against the operations that the kernel holds.
use iocp_game_chat_server.Prelude.{
  ℕ, suc, ◌+◌, ◌≡◌, Option, none, some, List, [], ◌∷◌, ◌++◌, arith, ◌==◌, if◌then◌else◌, u32,
}
use iocp_game_chat_server.State.{World, IoType, recv, send}
use iocp_game_chat_server.JobQueue.{enqueue_disconnect_job}
use iocp_game_chat_server.Session.{request_close, post_send, send_packet, packet_bytes, post_recv}

-- How many operations of a session are in flight.
abbrev pub count : ℕ → List (ℕ × IoType) → ℕ
count j [] = 0
count j ((s, t) ∷ ops) = if s == j then suc (count j ops) else count j ops

pub count-append :
    (j s : ℕ) (t : IoType) (ops : List (ℕ × IoType))
    → count j (ops ++ ((s, t) ∷ [])) ≡ count j ops + (if s == j then 1 else 0)
count-append j s t [] = ground arith
count-append j s t ((r, u) ∷ ops) = ground (arith, count-append j s t ops)

-- The counter of every session is the number of its operations in flight, in 32 bits.
abbrev pub IsCounted : ℕ → World → Type 0
IsCounted j w = (w.sessions j).pending_io ≡ u32 (count j w.in_flight)

pub request_close-IsCounted :
    (s j : ℕ) (w : World) → IsCounted j w → IsCounted j (request_close s w)
unfolding request_close enqueue_disconnect_job
request_close-IsCounted s j w h = ground arith

pub post_send-IsCounted :
    (s j : ℕ) (bytes : List ℕ) (w : World) → IsCounted j w → IsCounted j (post_send s bytes w)
unfolding post_send enqueue_disconnect_job
post_send-IsCounted s j bytes w h = ground (arith, count-append j s send w.in_flight)

-- `PostRecv` keeps every session's `pendingIO` equal to its number of operations in flight (modulo
-- 2 ^ 32), whether the kernel takes the receive or refuses it.
pub post_recv-IsCounted : (s j : ℕ) (w : World) → IsCounted j w → IsCounted j (post_recv s w)
unfolding post_recv request_close enqueue_disconnect_job
post_recv-IsCounted s j w h = ground (arith, count-append j s recv w.in_flight)

-- `SendPacket` keeps every session's `pendingIO` equal to its number of operations in flight (modulo
-- 2 ^ 32), whether the packet is refused by a guard, refused by the kernel, or taken.
pub send_packet-IsCounted :
    (s j id size : ℕ) (body : Option (List ℕ)) (w : World)
    → IsCounted j w
    → IsCounted j (send_packet s id body size w)
unfolding send_packet
send_packet-IsCounted s j id size none w h =
    ground (arith, h, post_send-IsCounted s j (packet_bytes id [] size) w h)
send_packet-IsCounted s j id size (some body) w h =
    ground (arith, h, post_send-IsCounted s j (packet_bytes id body size) w h)
