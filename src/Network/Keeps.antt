-- ===== src/Network/Keeps.antt =====
-- What a property needs to go through shutdown, and through the end of a worker's completion.
use iocp_game_chat_server.Prelude.{ℕ, ◌≡◌, refl, subst, Option, none, some, List, [], ◌∷◌}
use iocp_game_chat_server.State.{
  World, GameJob, GameJobType, ServerState, running, shutting_down, stopped,
}
use iocp_game_chat_server.JobQueue.{enqueue_shutdown_job, push_job, job_of}
use iocp_game_chat_server.Session.{request_close, send_packet}
use iocp_game_chat_server.Session.Sending.{Offers}
use iocp_game_chat_server.Receive.Keeps.{KeptAfter}
use iocp_game_chat_server.Network.{Net, shutdown, shutdown_sessions, try_destroy_session}

pub record KeepsShutdown (Q : World → Type 0) : Type 0 where
  pub sends :
      (s id size : ℕ) (body : Option (List ℕ)) (w : World)
      → Offers body size
      → Q w
      → Q (send_packet s id body size w)
  pub closes : (s : ℕ) (w : World) → Q w → Q (request_close s w)
  pub queues : (job : GameJob) (w : World) → Q w → Q (push_job w job)
  pub turns : (st : ServerState) (w : World) → Q w → Q (record w { server_state = st })

module _ (Q : World → Type 0) (k : KeepsShutdown Q) where
  shutdown_sessions-keeps : (m : List (ℕ × ℕ)) (w : World) → Q w → Q (shutdown_sessions m w)
  unfolding shutdown_sessions
  shutdown_sessions-keeps [] w h = h
  shutdown_sessions-keeps ((sock, s) ∷ m) w h =
      shutdown_sessions-keeps m _ (k.closes s _ (k.sends s 1000 0 none w refl h))

  pub shutdown-keeps : (n : Net) → Q n.world → Q (shutdown n).world
  unfolding shutdown enqueue_shutdown_job
  shutdown-keeps n h = by_state n.world.server_state refl
    where
      by_state : (st : ServerState) → n.world.server_state ≡ st → Q (shutdown n).world
      by_state running e =
          rw (e, shutdown)
            (k.queues (job_of GameJobType.shutdown none) _
              (shutdown_sessions-keeps n.registry _ (k.turns shutting_down n.world h)))
      by_state shutting_down e = rw (e, shutdown) h
      by_state stopped e = rw (e, shutdown) h

-- A worker first runs the session's handler, then `TryDestroySession`.
pub destroyed-keeps :
    (Q : World → Type 0) (s : ℕ) (o : Option World) (n n' : Net)
    → ((w : World)
        → try_destroy_session s (record n { world = w }) ≡ n'
        → Q w
        → Q (try_destroy_session s (record n { world = w })).world)
    → KeptAfter Q o
    → elim o [ none ↦ none | some w ↦ some (try_destroy_session s (record n { world = w })) ]
      ≡ some n'
    → Q n'.world
destroyed-keeps Q s none n n' destroys h e = absurd (cc)
destroyed-keeps Q s (some w) n n' destroys h e =
    let here : try_destroy_session s (record n { world = w }) ≡ n' = cc in
    subst (λ m. Q m.world) here (destroys w here h)
