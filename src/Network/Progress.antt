-- ===== src/Network/Progress.antt =====
-- Whatever the threads have done, a worker thread always finishes with a completion: the receive loop
-- comes to its end, because every session's ring is well formed all the time.
use iocp_game_chat_server.Prelude.{
  ℕ, ◌≡◌, subst, Bool, Option, some, List, arith, ◌==◌, if◌then◌else◌,
}
use iocp_game_chat_server.RingBuffer.{fresh}
use iocp_game_chat_server.RingBuffer.Contents.{fresh-IsValid}
use iocp_game_chat_server.State.{World}
use iocp_game_chat_server.JobQueue.{enqueue_connect_job, enqueue_disconnect_job}
use iocp_game_chat_server.Session.{
  fresh_session, request_close, send_packet, post_recv, on_send_complete, try_begin_destroy,
}
use iocp_game_chat_server.Session.Rings.{ring_of, ring_of-request_close, ring_of-send_packet}
use iocp_game_chat_server.Receive.Total.{RingsValid, on_recv_complete-Returns}
use iocp_game_chat_server.Server.{finish_cleanup}
use iocp_game_chat_server.Game.Keeps.{Keeps}
use iocp_game_chat_server.Game.Keeps.Jobs.{game_thread_step-keeps}
use iocp_game_chat_server.Network.{Net, received, worker_step, accept_client, try_destroy_session}
use iocp_game_chat_server.Network.Keeps.{KeepsShutdown, shutdown-keeps, destroyed-keeps}
use iocp_game_chat_server.Network.Steps.{
  holding, Step, accepts, receives, sends, cleans, plays, shuts, Steps, done, step,
}

request_close-RingsValid : (s : ℕ) (w : World) → RingsValid w → RingsValid (request_close s w)
request_close-RingsValid s w h j = rw (ring_of-request_close s j w) (h j)

send_packet-RingsValid :
    (s id size : ℕ) (body : Option (List ℕ)) (w : World)
    → RingsValid w
    → RingsValid (send_packet s id body size w)
send_packet-RingsValid s id size body w h j = rw (ring_of-send_packet s j id size body w) (h j)

RingsValid-Keeps : Keeps RingsValid
RingsValid-Keeps = record {
  sends = λ s id size body w offers h. send_packet-RingsValid s id size body w h;
  closes = request_close-RingsValid;
  plays = λ g w h. h;
  ticks = λ n w h. h;
  cleans = λ s w h j. unfold finish_cleanup in ground (arith, h j, h s);
}

ring_of-try_destroy_session :
    (s j : ℕ) (n : Net) → ring_of (try_destroy_session s n).world j ≡ ring_of n.world j
unfolding try_destroy_session try_begin_destroy
ring_of-try_destroy_session s j n = ground arith

ring_of-on_send_complete :
    (s j bytes : ℕ) (success : Bool) (w : World)
    → ring_of (on_send_complete s bytes success w) j ≡ ring_of w j
unfolding on_send_complete request_close enqueue_disconnect_job
ring_of-on_send_complete s j bytes success w = ground arith

ring_of-accept_client :
    (sock s j : ℕ) (n : Net)
    → ring_of (accept_client sock s n).world j ≡ (if j == s then fresh else ring_of n.world j)
unfolding accept_client post_recv enqueue_connect_job request_close enqueue_disconnect_job
    fresh_session
ring_of-accept_client sock s j n = ground arith

accept_client-RingsValid :
    (sock s : ℕ) (n : Net) → RingsValid n.world → RingsValid (accept_client sock s n).world
accept_client-RingsValid sock s n h j =
    rw (ring_of-accept_client sock s j n) (ground (arith, h j, fresh-IsValid))

RingsValid-KeepsShutdown : KeepsShutdown RingsValid
RingsValid-KeepsShutdown = record {
  sends = λ s id size body w offers h. send_packet-RingsValid s id size body w h;
  closes = request_close-RingsValid;
  queues = λ js w h. h;
  turns = λ st w h. h;
}

destroyed-RingsValid :
    (s : ℕ) (w : World) (n n' : Net)
    → RingsValid w
    → some (try_destroy_session s (record n { world = w })) ≡ some n'
    → RingsValid n'.world
destroyed-RingsValid s w n n' h e =
    destroyed-keeps RingsValid s (some w) n n'
      (λ v here a j. rw (ring_of-try_destroy_session s j (record n { world = v })) (a j)) h e

-- A worker with a receive completion.
record Handled (s : ℕ) (bytes : List ℕ) (success : Bool) (n : Net) : Type 0 where
  after : Net
  handled : worker_step s (received bytes success) n ≡ some after
  valid : RingsValid after.world

handle-received :
    (s : ℕ) (bytes : List ℕ) (success : Bool) (n : Net)
    → RingsValid n.world
    → Handled s bytes success n
unfolding worker_step
handle-received s bytes success n h =
    let (w', out, valid) = on_recv_complete-Returns s bytes success n.world h in
    record {
      after = try_destroy_session s (record n { world = w' });
      handled = rw (out, worker_step);
      valid = λ j. rw (ring_of-try_destroy_session s j (record n { world = w' })) (valid j);
    }

Step-RingsValid : (n n' : Net) → Step n n' → RingsValid n.world → RingsValid n'.world
Step-RingsValid _ _ (accepts sock s n free) h = accept_client-RingsValid sock s n h
Step-RingsValid _ _ (receives s bytes success ops n n' l e small) h =
    let r = handle-received s bytes success (holding ops n) h in
    let here : r.after ≡ n' = ground (arith, e, r.handled) in
    subst (λ k. RingsValid k.world) here r.valid
Step-RingsValid _ _ (sends s bytes success ops n n' l e small) h =
    let w = record (n.world) { in_flight = ops } in
    destroyed-RingsValid s (on_send_complete s bytes success w) (holding ops n) n'
      (λ j. rw (ring_of-on_send_complete s j bytes success w) (h j)) (unfold worker_step in e)
Step-RingsValid _ _ (cleans s rest n n' queued e small) h =
    destroyed-RingsValid s (record (n.world) { notices = rest }) n n' h (unfold worker_step in e)
Step-RingsValid _ _ (plays n) h =
    game_thread_step-keeps RingsValid RingsValid-Keeps n.world (λ js w a. a) h
Step-RingsValid _ _ (shuts n) h = shutdown-keeps RingsValid RingsValid-KeepsShutdown n h

Steps-RingsValid : (n n' : Net) → Steps n n' → RingsValid n.world → RingsValid n'.world
Steps-RingsValid _ _ (done n) h = h
Steps-RingsValid _ _ (step n n' n'' one more) h =
    Steps-RingsValid n' n'' more (Step-RingsValid n n' one h)

-- After any sequence of steps of the threads from a state in which every ring is well formed, a worker
-- that gets a receive completion, with any bytes and any outcome, comes to an end with it: the receive
-- loop does not run out of fuel.
pub Steps-handled :
    (n n' : Net) (s : ℕ) (bytes : List ℕ) (success : Bool)
    → RingsValid n.world
    → Steps n n'
    → (n'' : Net) × (worker_step s (received bytes success) n' ≡ some n'')
Steps-handled n n' s bytes success h run =
    let r = handle-received s bytes success n' (Steps-RingsValid n n' run h) in (r.after, r.handled)
