-- ===== src/Network/Beside.antt =====
-- The steps of the other threads, beside the game thread: the game stays, and the queue only grows.
use iocp_game_chat_server.Prelude.{
  ℕ, ◌≡◌, refl, ◌∙◌, Option, none, some, inl, inr, List, arith, Bool-cases,
}
use iocp_game_chat_server.State.{World, GameJob, GameJobType, is_shutting_down, put_session}
use iocp_game_chat_server.JobQueue.{job_of, enqueue_connect_job}
use iocp_game_chat_server.Session.{on_send_complete, try_begin_destroy, fresh_session}
use iocp_game_chat_server.Session.Growth.{
  Grown, Grown-self, Grown-push, request_close-Grown, send_packet-Grown, post_recv-Grown,
  on_send_complete-Grown,
}
use iocp_game_chat_server.Receive.Keeps.{KeepsReceiving, KeptAfter, on_recv_complete-KeptAfter}
use iocp_game_chat_server.Network.{Net, worker_step, accept_client, try_destroy_session}
use iocp_game_chat_server.Network.Keeps.{KeepsShutdown, shutdown-keeps, destroyed-keeps}
use iocp_game_chat_server.Network.Steps.{
  holding, Step, accepts, receives, sends, cleans, plays, shuts, played,
}
use iocp_game_chat_server.Network.Quiet.{
  Same-KeepsReceiving, Same-KeepsShutdown, Same, Same-try_destroy_session, Same-on_send_complete,
  Same-accept_client,
}

-- What the other threads do: the game stays as it is, and the queue is this one with more behind it.
abbrev pub Beside : World → World → Type 0
Beside w₀ w = Same w₀ w × Grown w₀.jobs w

Beside-KeepsReceiving : (w₀ : World) → KeepsReceiving (Beside w₀)
Beside-KeepsReceiving w₀ =
    let k = Same-KeepsReceiving w₀ in
    record {
      sends = λ s id size body w offers h.
          (k.sends s id size body w offers h.0, send_packet-Grown s id size body w w₀.jobs h.1);
      closes = λ s w h. (k.closes s w h.0, request_close-Grown s w w₀.jobs h.1);
      receives = λ s w h. (k.receives s w h.0, post_recv-Grown s w w₀.jobs h.1);
      queues = λ job w h. (k.queues job w h.0, Grown-push w₀.jobs job w h.1);
      skips = λ s n w h. h;
    }

Beside-KeepsShutdown : (w₀ : World) → KeepsShutdown (Beside w₀)
Beside-KeepsShutdown w₀ =
    let k = Same-KeepsShutdown w₀ in
    record {
      sends = λ s id size body w offers h.
          (k.sends s id size body w offers h.0, send_packet-Grown s id size body w w₀.jobs h.1);
      closes = λ s w h. (k.closes s w h.0, request_close-Grown s w w₀.jobs h.1);
      queues = λ job w h. (k.queues job w h.0, Grown-push w₀.jobs job w h.1);
      turns = λ st w h. h;
    }

jobs-try_destroy_session : (s : ℕ) (n : Net) → (try_destroy_session s n).world.jobs ≡ n.world.jobs
unfolding try_destroy_session try_begin_destroy
jobs-try_destroy_session s n = ground arith

destroyed-Beside :
    (s : ℕ) (o : Option World) (w₀ : World) (n n' : Net)
    → KeptAfter (Beside w₀) o
    → elim o [ none ↦ none | some w ↦ some (try_destroy_session s (record n { world = w })) ]
      ≡ some n'
    → Beside w₀ n'.world
destroyed-Beside s o w₀ n n' h e =
    destroyed-keeps (Beside w₀) s o n n'
      (λ w here a.
        let f = Same-try_destroy_session s (record n { world = w }) in
        (
          (f.0 ∙ a.0.0, f.1 ∙ a.0.1),
          (a.1.0, jobs-try_destroy_session s (record n { world = w }) ∙ a.1.1),
        ))
      h e

enqueue_connect_job-Grown :
    (s : ℕ) (w : World) (js : List GameJob) → Grown js w → Grown js (enqueue_connect_job s w)
unfolding enqueue_connect_job
enqueue_connect_job-Grown s w js h = elim (Bool-cases (is_shutting_down w)) [
  | inl down ↦ rw (down, enqueue_connect_job) h
  | inr up ↦ rw (up, enqueue_connect_job) (Grown-push js (job_of GameJobType.connect (some s)) w h)
]

accept_client-Grown : (sock s : ℕ) (n : Net) → Grown n.world.jobs (accept_client sock s n).world
unfolding accept_client
accept_client-Grown sock s n =
    let w = put_session n.world s (fresh_session sock) in
    post_recv-Grown s (enqueue_connect_job s w) n.world.jobs
      (enqueue_connect_job-Grown s w n.world.jobs (Grown-self w))

-- A step that is no round of the game thread.
pub Step-Beside : (n n' : Net) (one : Step n n') → played one ≡ 0 → Beside n.world n'.world
unfolding worker_step played
Step-Beside _ _ (accepts sock s n free) h =
    (Same-accept_client sock s n, accept_client-Grown sock s n)
Step-Beside _ _ (receives s bytes success ops n n' l e small) h =
    let w = record (n.world) { in_flight = ops } in
    destroyed-Beside s _ n.world (holding ops n) n'
      (on_recv_complete-KeptAfter (Beside n.world) (Beside-KeepsReceiving n.world) s bytes success w
        (λ r. ((refl, refl), Grown-self n.world)))
      e
Step-Beside _ _ (sends s bytes success ops n n' l e small) h =
    let w = record (n.world) { in_flight = ops } in
    destroyed-Beside s (some (on_send_complete s bytes success w)) n.world (holding ops n) n'
      (
        Same-on_send_complete s bytes success w,
        on_send_complete-Grown s bytes success w n.world.jobs (Grown-self n.world),
      )
      e
Step-Beside _ _ (cleans s rest n n' queued e small) h =
    destroyed-Beside s (some (record (n.world) { notices = rest })) n.world n n'
      ((refl, refl), Grown-self n.world) e
Step-Beside _ _ (plays n) h = absurd (omega arith)
Step-Beside _ _ (shuts n) h =
    shutdown-keeps (Beside n.world) (Beside-KeepsShutdown n.world) n
      ((refl, refl), Grown-self n.world)
