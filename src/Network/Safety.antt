-- ===== src/Network/Safety.antt =====
-- Whatever the threads do, in whatever order, every session stays sound; so the kernel never reports an
-- operation of a session that has been freed.
use iocp_game_chat_server.Prelude.{
  ℕ, ◌^◌, ◌<◌, ◌≡◌, sym, subst, Bool, true, false, not, Option, none, some, inl, inr, List, arith,
  ◌==◌, ◌||◌, Bool-cases,
}
use iocp_game_chat_server.RingBuffer.{RingBuffer}
use iocp_game_chat_server.State.{World, GameJob, IoType, recv, send, put_session}
use iocp_game_chat_server.JobQueue.{enqueue_connect_job, push}
use iocp_game_chat_server.Session.{fresh_session, on_send_complete, io_ended, try_begin_destroy}
use iocp_game_chat_server.Session.Pending.{count}
use iocp_game_chat_server.Session.Sound.{
  AllSound, request_close-AllSound, send_packet-AllSound, post_recv-AllSound,
}
use iocp_game_chat_server.Receive.Keeps.{KeepsReceiving, KeptAfter, on_recv_complete-KeptAfter}
use iocp_game_chat_server.Server.{finish_cleanup}
use iocp_game_chat_server.Game.Keeps.{Keeps}
use iocp_game_chat_server.Game.Keeps.Jobs.{game_thread_step-keeps}
use iocp_game_chat_server.Network.{Net, worker_step, accept_client, try_destroy_session}
use iocp_game_chat_server.Network.Keeps.{KeepsShutdown, shutdown-keeps, destroyed-keeps}
use iocp_game_chat_server.Network.Steps.{
  Leaves, count-Leaves, holding, Step, accepts, receives, sends, cleans, plays, shuts, Steps, done,
  step,
}

jobs-AllSound : (js : List GameJob) (w : World) → AllSound w → AllSound (record w { jobs = js })
jobs-AllSound js w h j = record {
  settled = (h j).settled;
  counted = (h j).counted;
  gone = (h j).gone;
}

-- The game thread.
AllSound-Keeps : Keeps AllSound
AllSound-Keeps = record {
  sends = λ s id size body w offers h. send_packet-AllSound s id size body w h;
  closes = request_close-AllSound;
  plays = λ g w h j. record { settled = (h j).settled; counted = (h j).counted; gone = (h j).gone };
  ticks = λ n w h j. record { settled = (h j).settled; counted = (h j).counted; gone = (h j).gone };
  cleans = λ s w h j.
      unfold finish_cleanup in
      record {
        settled = ground (arith, (h j).settled, (h s).settled);
        counted = ground (arith, (h j).counted, (h s).counted);
        gone = ground (arith, (h j).gone, (h s).gone);
      };
}

-- The receive loop.
AllSound-KeepsReceiving : KeepsReceiving AllSound
AllSound-KeepsReceiving = record {
  sends = λ s id size body w offers h. send_packet-AllSound s id size body w h;
  closes = request_close-AllSound;
  receives = post_recv-AllSound;
  queues = λ job w h. jobs-AllSound (push w.jobs job) w h;
  skips = λ s n w h j. record {
    settled = ground (arith, (h j).settled, (h s).settled);
    counted = ground (arith, (h j).counted, (h s).counted);
    gone = ground (arith, (h j).gone, (h s).gone);
  };
}

-- A session whose operation the kernel has reported, once `pendingIO` has gone down.
ended-AllSound :
    (s : ℕ) (t : IoType) (ops : List (ℕ × IoType)) (posted : Bool) (r : RingBuffer) (w : World)
    → Leaves s t w.in_flight ops
    → AllSound w
    → AllSound (
        put_session
          (record w { in_flight = ops })
          s
          (io_ended (record (w.sessions s) { recv_posted = posted; recv_ring = r })))
ended-AllSound s t ops posted r w l h j = record {
  settled = ground (arith, (h j).settled, (h s).settled);
  counted =
      ground (arith, (h j).counted, (h s).counted, count-Leaves j s t l, count-Leaves s s t l);
  gone = ground (arith, (h j).gone, (h s).gone, count-Leaves j s t l, count-Leaves s s t l);
}

on_send_complete-AllSound :
    (s bytes : ℕ) (success : Bool) (ops : List (ℕ × IoType)) (w : World)
    → Leaves s send w.in_flight ops
    → AllSound w
    → AllSound (on_send_complete s bytes success (record w { in_flight = ops }))
unfolding on_send_complete
on_send_complete-AllSound s bytes success ops w l h =
    let x = w.sessions s in
    let h₁ = ended-AllSound s send ops x.recv_posted x.recv_ring w l h in
    elim (Bool-cases (not success || bytes == 0)) [
      | inl over ↦ rw over (request_close-AllSound s _ h₁)
      | inr more ↦ rw more h₁
    ]

-- `TryDestroySession` marks a session only where the kernel holds no operation of it.
try_destroy_session-AllSound :
    (s : ℕ) (n : Net)
    → count s (try_destroy_session s n).world.in_flight < 2 ^ 32
    → AllSound n.world
    → AllSound (try_destroy_session s n).world
unfolding try_destroy_session try_begin_destroy
try_destroy_session-AllSound s n small h j = record {
  settled = ground (arith, (h j).settled, (h s).settled);
  counted = ground (arith, (h j).counted, (h s).counted);
  gone = ground (arith, small, (h j).gone, (h s).gone, (h s).settled, (h s).counted);
}

accept_client-AllSound :
    (sock s : ℕ) (n : Net)
    → (n.world.sessions s).destroying ≡ true
    → AllSound n.world
    → AllSound (accept_client sock s n).world
unfolding accept_client enqueue_connect_job fresh_session
accept_client-AllSound sock s n free h =
    let w = put_session n.world s (fresh_session sock) in
    let made : AllSound w = λ j. record {
      settled = ground (arith, (h j).settled);
      counted = ground (arith, free, (h j).counted, (h s).gone);
      gone = ground (arith, (h j).gone);
    } in
    let queued : AllSound (enqueue_connect_job s w) =
      ground (arith, made, jobs-AllSound _ w made) in
    post_recv-AllSound s _ queued

AllSound-KeepsShutdown : KeepsShutdown AllSound
AllSound-KeepsShutdown = record {
  sends = λ s id size body w offers h. send_packet-AllSound s id size body w h;
  closes = request_close-AllSound;
  queues = λ job w h. jobs-AllSound (push w.jobs job) w h;
  turns =
      λ st w h j. record { settled = (h j).settled; counted = (h j).counted; gone = (h j).gone };
}

worker_step-AllSound :
    (s : ℕ) (o : Option World) (n n' : Net)
    → KeptAfter AllSound o
    → elim o [ none ↦ none | some w' ↦ some (try_destroy_session s (record n { world = w' })) ]
      ≡ some n'
    → count s n'.world.in_flight < 2 ^ 32
    → AllSound n'.world
worker_step-AllSound s o n n' h e small =
    destroyed-keeps AllSound s o n n'
      (λ w here.
        try_destroy_session-AllSound s (record n { world = w })
          (subst (λ m. count s m.world.in_flight < 2 ^ 32) (sym here) small))
      h e

Step-AllSound : (n n' : Net) → Step n n' → AllSound n.world → AllSound n'.world
unfolding worker_step
Step-AllSound _ _ (accepts sock s n free) h = accept_client-AllSound sock s n free h
Step-AllSound _ _ (receives s bytes success ops n n' l e small) h =
    worker_step-AllSound s _ (holding ops n) n'
      (on_recv_complete-KeptAfter AllSound AllSound-KeepsReceiving s bytes success
        (record (n.world) { in_flight = ops }) (λ r. ended-AllSound s recv ops false r n.world l h))
      e small
Step-AllSound _ _ (sends s bytes success ops n n' l e small) h =
    worker_step-AllSound s
      (some (on_send_complete s bytes success (record (n.world) { in_flight = ops })))
      (holding ops n) n' (on_send_complete-AllSound s bytes success ops n.world l h) e small
Step-AllSound _ _ (cleans s rest n n' queued e small) h =
    worker_step-AllSound s (some (record (n.world) { notices = rest })) n n'
      (λ j. record { settled = (h j).settled; counted = (h j).counted; gone = (h j).gone }) e small
Step-AllSound _ _ (plays n) h =
    game_thread_step-keeps AllSound AllSound-Keeps n.world jobs-AllSound h
Step-AllSound _ _ (shuts n) h = shutdown-keeps AllSound AllSound-KeepsShutdown n h

-- Where every session is either open or closed for good, has `pendingIO` equal to its number of
-- operations in flight (modulo 2 ^ 32), and is closed with nothing in flight if it is marked for
-- deletion, any sequence of steps of the threads keeps it so.
pub Steps-AllSound : (n n' : Net) → Steps n n' → AllSound n.world → AllSound n'.world
Steps-AllSound _ _ (done n) h = h
Steps-AllSound _ _ (step n n' n'' one more) h =
    Steps-AllSound n' n'' more (Step-AllSound n n' one h)

count-held :
    (s : ℕ) (t : IoType) {ops ops' : List (ℕ × IoType)} → Leaves s t ops ops' → 0 < count s ops
count-held s t l = ground (arith, count-Leaves s s t l)

-- However the threads' steps follow one another from a sound state, an operation that the kernel holds
-- and reports belongs to a session that has not been marked for deletion: no completion of a read or a
-- write finds its session freed.
pub Steps-live :
    (n n' : Net) (s : ℕ) (t : IoType) (ops : List (ℕ × IoType))
    → AllSound n.world
    → Steps n n'
    → Leaves s t n'.world.in_flight ops
    → (n'.world.sessions s).destroying ≡ false
Steps-live n n' s t ops h run l =
    ground (arith, (Steps-AllSound n n' run h s).gone, count-held s t l)
