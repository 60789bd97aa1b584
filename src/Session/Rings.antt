-- ===== src/Session/Rings.antt =====
-- What closing, sending and processing a packet leave alone: the receive ring of every session.
use iocp_game_chat_server.Prelude.{ℕ, ◌≡◌, Option, none, some, List, [], arith}
use iocp_game_chat_server.RingBuffer.{RingBuffer}
use iocp_game_chat_server.State.{World}
use iocp_game_chat_server.JobQueue.{enqueue_disconnect_job}
use iocp_game_chat_server.Session.{post_recv, request_close, post_send, send_packet, packet_bytes}

abbrev pub ring_of : World → ℕ → RingBuffer
ring_of w j = (w.sessions j).recv_ring

pub ring_of-request_close : (s j : ℕ) (w : World) → ring_of (request_close s w) j ≡ ring_of w j
unfolding request_close enqueue_disconnect_job
ring_of-request_close s j w = ground arith

pub ring_of-post_send :
    (s j : ℕ) (bytes : List ℕ) (w : World) → ring_of (post_send s bytes w) j ≡ ring_of w j
unfolding post_send enqueue_disconnect_job
ring_of-post_send s j bytes w = ground arith

pub ring_of-send_packet :
    (s j id size : ℕ) (body : Option (List ℕ)) (w : World)
    → ring_of (send_packet s id body size w) j ≡ ring_of w j
unfolding send_packet
ring_of-send_packet s j id size none w =
    ground (arith, ring_of-post_send s j (packet_bytes id [] size) w)
ring_of-send_packet s j id size (some bytes) w =
    ground (arith, ring_of-post_send s j (packet_bytes id bytes size) w)

pub ring_of-post_recv : (s j : ℕ) (w : World) → ring_of (post_recv s w) j ≡ ring_of w j
unfolding post_recv request_close enqueue_disconnect_job
ring_of-post_recv s j w = ground arith
