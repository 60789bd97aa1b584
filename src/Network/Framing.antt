-- ===== src/Network/Framing.antt =====
-- Whatever the threads do, in whatever order, only whole packets reach WSASend.
use iocp_game_chat_server.Prelude.{ℕ, ◌≡◌, Bool, Option, none, some, arith}
use iocp_game_chat_server.State.{World}
use iocp_game_chat_server.JobQueue.{enqueue_connect_job, enqueue_disconnect_job}
use iocp_game_chat_server.Session.{request_close, post_recv, on_send_complete, try_begin_destroy}
use iocp_game_chat_server.Session.Sending.{AllFramed, sent-request_close, send_packet-AllFramed}
use iocp_game_chat_server.Receive.Keeps.{KeepsReceiving, KeptAfter, on_recv_complete-KeptAfter}
use iocp_game_chat_server.Server.{finish_cleanup}
use iocp_game_chat_server.Game.Keeps.{Keeps}
use iocp_game_chat_server.Game.Keeps.Jobs.{game_thread_step-keeps}
use iocp_game_chat_server.Network.{Net, worker_step, accept_client, try_destroy_session}
use iocp_game_chat_server.Network.Keeps.{KeepsShutdown, shutdown-keeps, destroyed-keeps}
use iocp_game_chat_server.Network.Steps.{
  holding, Step, accepts, receives, sends, cleans, plays, shuts, Steps, done, step,
}

abbrev pub Framed : World → Type 0
Framed w = AllFramed w.sent

request_close-Framed : (s : ℕ) (w : World) → Framed w → Framed (request_close s w)
request_close-Framed s w h = rw (sent-request_close s w) h

sent-post_recv : (s : ℕ) (w : World) → (post_recv s w).sent ≡ w.sent
unfolding post_recv request_close enqueue_disconnect_job
sent-post_recv s w = ground arith

pub Framed-Keeps : Keeps Framed
Framed-Keeps = record {
  sends = send_packet-AllFramed;
  closes = request_close-Framed;
  plays = λ g w h. h;
  ticks = λ n w h. h;
  cleans = λ s w h. unfold finish_cleanup in h;
}

Framed-KeepsReceiving : KeepsReceiving Framed
Framed-KeepsReceiving = record {
  sends = send_packet-AllFramed;
  closes = request_close-Framed;
  receives = λ s w h. rw (sent-post_recv s w) h;
  queues = λ js w h. h;
  skips = λ s n w h. h;
}

sent-try_destroy_session : (s : ℕ) (n : Net) → (try_destroy_session s n).world.sent ≡ n.world.sent
unfolding try_destroy_session try_begin_destroy
sent-try_destroy_session s n = ground arith

sent-on_send_complete :
    (s bytes : ℕ) (success : Bool) (w : World) → (on_send_complete s bytes success w).sent ≡ w.sent
unfolding on_send_complete request_close enqueue_disconnect_job
sent-on_send_complete s bytes success w = ground arith

sent-accept_client : (sock s : ℕ) (n : Net) → (accept_client sock s n).world.sent ≡ n.world.sent
unfolding accept_client post_recv enqueue_connect_job request_close enqueue_disconnect_job
sent-accept_client sock s n = ground arith

Framed-KeepsShutdown : KeepsShutdown Framed
Framed-KeepsShutdown = record {
  sends = send_packet-AllFramed;
  closes = request_close-Framed;
  queues = λ js w h. h;
  turns = λ st w h. h;
}

worker_step-Framed :
    (s : ℕ) (o : Option World) (n n' : Net)
    → KeptAfter Framed o
    → elim o [ none ↦ none | some w' ↦ some (try_destroy_session s (record n { world = w' })) ]
      ≡ some n'
    → Framed n'.world
worker_step-Framed s o n n' h e =
    destroyed-keeps Framed s o n n'
      (λ w here a. rw (sent-try_destroy_session s (record n { world = w })) a) h e

Step-Framed : (n n' : Net) → Step n n' → Framed n.world → Framed n'.world
unfolding worker_step
Step-Framed _ _ (accepts sock s n free) h = rw (sent-accept_client sock s n) h
Step-Framed _ _ (receives s bytes success ops n n' l e small) h =
    worker_step-Framed s _ (holding ops n) n'
      (on_recv_complete-KeptAfter Framed Framed-KeepsReceiving s bytes success
        (record (n.world) { in_flight = ops }) (λ r. h))
      e
Step-Framed _ _ (sends s bytes success ops n n' l e small) h =
    let w = record (n.world) { in_flight = ops } in
    worker_step-Framed s (some (on_send_complete s bytes success w)) (holding ops n) n'
      (rw (sent-on_send_complete s bytes success w) h) e
Step-Framed _ _ (cleans s rest n n' queued e small) h =
    worker_step-Framed s (some (record (n.world) { notices = rest })) n n' h e
Step-Framed _ _ (plays n) h = game_thread_step-keeps Framed Framed-Keeps n.world (λ js w a. a) h
Step-Framed _ _ (shuts n) h = shutdown-keeps Framed Framed-KeepsShutdown n h

-- From a state in which all that reached WSASend were whole packets of 4 to 4096 bytes with their own
-- length in the header, any sequence of steps of the threads leads to such a state again: no handler,
-- kick or shutdown ever sends anything else.
pub Steps-Framed : (n n' : Net) → Steps n n' → AllFramed n.world.sent → AllFramed n'.world.sent
Steps-Framed _ _ (done n) h = h
Steps-Framed _ _ (step n n' n'' one more) h = Steps-Framed n' n'' more (Step-Framed n n' one h)
