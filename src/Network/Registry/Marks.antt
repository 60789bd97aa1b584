-- ===== src/Network/Registry/Marks.antt =====
-- Which functions leave the sessions' marks of deletion alone.
use iocp_game_chat_server.Prelude.{ℕ, ◌≡◌, ◌∙◌, Bool, Option, none, some, List, [], arith}
use iocp_game_chat_server.State.{World}
use iocp_game_chat_server.JobQueue.{enqueue_disconnect_job}
use iocp_game_chat_server.Session.{
  request_close, post_send, send_packet, packet_bytes, post_recv, on_send_complete,
}
use iocp_game_chat_server.Receive.Keeps.{KeepsReceiving}
use iocp_game_chat_server.Server.{finish_cleanup}
use iocp_game_chat_server.Game.Keeps.{Keeps}
use iocp_game_chat_server.Network.Keeps.{KeepsShutdown}

-- The marks of deletion stay as they are.
abbrev pub SameMarks : World → World → Type 0
SameMarks w₀ w = (j : ℕ) → (w.sessions j).destroying ≡ (w₀.sessions j).destroying

pub SameMarks-request_close : (s : ℕ) (w : World) → SameMarks w (request_close s w)
unfolding request_close enqueue_disconnect_job
SameMarks-request_close s w j = ground arith

pub SameMarks-post_send : (s : ℕ) (bytes : List ℕ) (w : World) → SameMarks w (post_send s bytes w)
unfolding post_send request_close enqueue_disconnect_job
SameMarks-post_send s bytes w j = ground arith

pub SameMarks-send_packet :
    (s id size : ℕ) (body : Option (List ℕ)) (w : World)
    → SameMarks w (send_packet s id body size w)
unfolding send_packet
SameMarks-send_packet s id size none w j =
    ground (arith, SameMarks-post_send s (packet_bytes id [] size) w j)
SameMarks-send_packet s id size (some body) w j =
    ground (arith, SameMarks-post_send s (packet_bytes id body size) w j)

pub SameMarks-post_recv : (s : ℕ) (w : World) → SameMarks w (post_recv s w)
unfolding post_recv request_close enqueue_disconnect_job
SameMarks-post_recv s w j = ground arith

pub SameMarks-on_send_complete :
    (s bytes : ℕ) (success : Bool) (w : World) → SameMarks w (on_send_complete s bytes success w)
unfolding on_send_complete request_close enqueue_disconnect_job
SameMarks-on_send_complete s bytes success w j = ground arith

pub SameMarks-Keeps : (w₀ : World) → Keeps (SameMarks w₀)
SameMarks-Keeps w₀ = record {
  sends = λ s id size body w offers h j. SameMarks-send_packet s id size body w j ∙ h j;
  closes = λ s w h j. SameMarks-request_close s w j ∙ h j;
  plays = λ g w h. h;
  ticks = λ n w h. h;
  cleans = λ s w h j. unfold finish_cleanup in ground (arith, h j);
}

pub SameMarks-KeepsReceiving : (w₀ : World) → KeepsReceiving (SameMarks w₀)
SameMarks-KeepsReceiving w₀ = record {
  sends = λ s id size body w offers h j. SameMarks-send_packet s id size body w j ∙ h j;
  closes = λ s w h j. SameMarks-request_close s w j ∙ h j;
  receives = λ s w h j. SameMarks-post_recv s w j ∙ h j;
  queues = λ job w h. h;
  skips = λ s n w h j. ground (arith, h j);
}

pub SameMarks-KeepsShutdown : (w₀ : World) → KeepsShutdown (SameMarks w₀)
SameMarks-KeepsShutdown w₀ = record {
  sends = λ s id size body w offers h j. SameMarks-send_packet s id size body w j ∙ h j;
  closes = λ s w h j. SameMarks-request_close s w j ∙ h j;
  queues = λ job w h. h;
  turns = λ st w h. h;
}
