-- ===== src/Network/Quiet.antt =====
-- The network's side, and what the game thread sends, leave the game and the order of its maps alone.

use iocp_game_chat_server.Prelude.{ℕ, ◌≡◌, ◌∙◌, Bool, Option, none, some, List, [], arith}
use iocp_game_chat_server.State.{World}
use iocp_game_chat_server.JobQueue.{enqueue_connect_job, enqueue_disconnect_job}
use iocp_game_chat_server.Session.{
  request_close, post_send, send_packet, packet_bytes, post_recv, on_send_complete,
  try_begin_destroy,
}
use iocp_game_chat_server.Receive.Keeps.{KeepsReceiving}
use iocp_game_chat_server.Game.Quiet.{game-request_close, game-send_packet}
use iocp_game_chat_server.Network.{Net, accept_client, try_destroy_session}
use iocp_game_chat_server.Network.Keeps.{KeepsShutdown}

abbrev pub SameVisit : World → World → Type 0
SameVisit w₀ w = w.visit ≡ w₀.visit

pub visit-request_close : (s : ℕ) (w : World) → SameVisit w (request_close s w)
unfolding request_close enqueue_disconnect_job
visit-request_close s w = ground arith

pub visit-post_send : (s : ℕ) (bytes : List ℕ) (w : World) → SameVisit w (post_send s bytes w)
unfolding post_send enqueue_disconnect_job
visit-post_send s bytes w = ground arith

pub visit-send_packet :
    (s id size : ℕ) (body : Option (List ℕ)) (w : World)
    → SameVisit w (send_packet s id body size w)
unfolding send_packet
visit-send_packet s id size none w = ground (arith, visit-post_send s (packet_bytes id [] size) w)
visit-send_packet s id size (some body) w =
    ground (arith, visit-post_send s (packet_bytes id body size) w)

-- The network's side leaves the game alone.
abbrev pub Same : World → World → Type 0
Same w₀ w = (w.game ≡ w₀.game) × (w.visit ≡ w₀.visit)

pub Same-post_recv : (s : ℕ) (w : World) → Same w (post_recv s w)
unfolding post_recv request_close enqueue_disconnect_job
Same-post_recv s w = (ground arith, ground arith)

pub Same-request_close : (s : ℕ) (w₀ w : World) → Same w₀ w → Same w₀ (request_close s w)
Same-request_close s w₀ w h = (game-request_close s w ∙ h.0, visit-request_close s w ∙ h.1)

pub Same-send_packet :
    (s id size : ℕ) (body : Option (List ℕ)) (w₀ w : World)
    → Same w₀ w
    → Same w₀ (send_packet s id body size w)
Same-send_packet s id size body w₀ w h =
    (game-send_packet s id body size w ∙ h.0, visit-send_packet s id size body w ∙ h.1)

pub Same-KeepsReceiving : (w₀ : World) → KeepsReceiving (Same w₀)
Same-KeepsReceiving w₀ = record {
  sends = λ s id size body w offers h. Same-send_packet s id size body w₀ w h;
  closes = λ s w h. Same-request_close s w₀ w h;
  receives = λ s w h. let e = Same-post_recv s w in (e.0 ∙ h.0, e.1 ∙ h.1);
  queues = λ js w h. h;
  skips = λ s n w h. h;
}

pub Same-try_destroy_session : (s : ℕ) (n : Net) → Same n.world (try_destroy_session s n).world
unfolding try_destroy_session try_begin_destroy
Same-try_destroy_session s n = (ground arith, ground arith)

pub Same-on_send_complete :
    (s bytes : ℕ) (success : Bool) (w : World) → Same w (on_send_complete s bytes success w)
unfolding on_send_complete request_close enqueue_disconnect_job
Same-on_send_complete s bytes success w = (ground arith, ground arith)

pub Same-accept_client : (sock s : ℕ) (n : Net) → Same n.world (accept_client sock s n).world
unfolding accept_client post_recv enqueue_connect_job request_close enqueue_disconnect_job
Same-accept_client sock s n = (ground arith, ground arith)

pub Same-KeepsShutdown : (w₀ : World) → KeepsShutdown (Same w₀)
Same-KeepsShutdown w₀ = record {
  sends = λ s id size body w offers h. Same-send_packet s id size body w₀ w h;
  closes = λ s w h. Same-request_close s w₀ w h;
  queues = λ js w h. h;
  turns = λ st w h. h;
}
