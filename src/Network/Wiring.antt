-- ===== src/Network/Wiring.antt =====
-- Whatever the threads do, in whatever order, players, rooms and maps point at each other consistently:
-- only the game thread touches them.
use mathlib.Core.List.{Perm}
use iocp_game_chat_server.Prelude.{
  ℕ, ◌≡◌, refl, ◌∙◌, Option, none, some, inl, inr, List, arith, Option-cases,
}
use iocp_game_chat_server.State.{World}
use iocp_game_chat_server.JobQueue.{pop}
use iocp_game_chat_server.Session.{on_send_complete}
use iocp_game_chat_server.Receive.Keeps.{KeptAfter, on_recv_complete-KeptAfter}
use iocp_game_chat_server.Server.{finish_cleanup}
use iocp_game_chat_server.Dispatch.{game_thread_step}
use iocp_game_chat_server.Game.Keeps.{Keeps}
use iocp_game_chat_server.Game.Keeps.Jobs.{game_thread_step-keeps}
use iocp_game_chat_server.Game.Handlers.{WiredWorld}
use iocp_game_chat_server.Game.Jobs.{run_job-Wired}
use iocp_game_chat_server.Network.{Net, worker_step, try_destroy_session}
use iocp_game_chat_server.Network.Keeps.{shutdown-keeps, destroyed-keeps}
use iocp_game_chat_server.Network.Quiet.{
  SameVisit, visit-request_close, visit-send_packet, Same, Same-KeepsReceiving,
  Same-try_destroy_session, Same-on_send_complete, Same-accept_client, Same-KeepsShutdown,
}
use iocp_game_chat_server.Network.Steps.{
  holding, Step, accepts, receives, sends, cleans, plays, shuts, Steps, done, step,
}

-- Iteration over the rooms meets them all, in some order, whenever it is done.
abbrev pub AnyOrder : (List (ℕ × ℕ) → List (ℕ × ℕ)) → Type 0
AnyOrder visit = (m : List (ℕ × ℕ)) → Perm (visit m) m

SameVisit-Keeps : (w₀ : World) → Keeps (SameVisit w₀)
SameVisit-Keeps w₀ = record {
  sends = λ s id size body w offers h. visit-send_packet s id size body w ∙ h;
  closes = λ s w h. visit-request_close s w ∙ h;
  plays = λ g w h. h;
  ticks = λ n w h. h;
  cleans = λ s w h. unfold finish_cleanup in h;
}

Same-worker_step :
    (s : ℕ) (o : Option World) (w₀ : World) (n n' : Net)
    → KeptAfter (Same w₀) o
    → elim o [ none ↦ none | some w' ↦ some (try_destroy_session s (record n { world = w' })) ]
      ≡ some n'
    → Same w₀ n'.world
Same-worker_step s o w₀ n n' h e =
    destroyed-keeps (Same w₀) s o n n'
      (λ w here a.
        let f = Same-try_destroy_session s (record n { world = w }) in (f.0 ∙ a.0, f.1 ∙ a.1))
      h e

-- The invariant of the whole server, as far as its game goes.
pub record WiredNet (n : Net) : Type 0 where
  pub wired : WiredWorld n.world
  pub any_order : AnyOrder n.world.visit

Same-WiredNet : (n n' : Net) → Same n.world n'.world → WiredNet n → WiredNet n'
Same-WiredNet n n' e h = record { wired = rw (e.0) h.wired; any_order = rw (e.1) h.any_order }

game_thread_step-Wired :
    (w : World) → AnyOrder w.visit → WiredWorld w → WiredWorld (game_thread_step w)
unfolding game_thread_step
game_thread_step-Wired w any h = elim (Option-cases (pop w.jobs)) [
  | inl e ↦ ground (arith, e, h)
  | inr ((job, queue), e) ↦
      let ran =
        run_job-Wired job.type job.session (record { header = job.header; body = job.body })
          (record w { jobs = queue }) h (any w.game.rooms) in
      ground (arith, e, h, ran)
]

Step-WiredNet : (n n' : Net) → Step n n' → WiredNet n → WiredNet n'
unfolding worker_step
Step-WiredNet _ _ (accepts sock s n free) h = Same-WiredNet n _ (Same-accept_client sock s n) h
Step-WiredNet _ _ (receives s bytes success ops n n' l e small) h =
    Same-WiredNet n n'
      (Same-worker_step s _ n.world (holding ops n) n'
        (on_recv_complete-KeptAfter (Same n.world) (Same-KeepsReceiving n.world) s bytes success
          (record (n.world) { in_flight = ops }) (λ r. (refl, refl)))
        e)
      h
Step-WiredNet _ _ (sends s bytes success ops n n' l e small) h =
    Same-WiredNet n n'
      (Same-worker_step s
        (some (on_send_complete s bytes success (record (n.world) { in_flight = ops }))) n.world
        (holding ops n) n'
        (Same-on_send_complete s bytes success (record (n.world) { in_flight = ops })) e)
      h
Step-WiredNet _ _ (cleans s rest n n' queued e small) h =
    Same-WiredNet n n'
      (Same-worker_step s (some (record (n.world) { notices = rest })) n.world n n' (refl, refl) e)
      h
Step-WiredNet _ _ (plays n) h = record {
  wired = game_thread_step-Wired n.world h.any_order h.wired;
  any_order =
      rw
        (game_thread_step-keeps (SameVisit n.world) (SameVisit-Keeps n.world) n.world (λ js w e. e)
          refl)
        h.any_order;
}
Step-WiredNet _ _ (shuts n) h =
    Same-WiredNet n _ (shutdown-keeps (Same n.world) (Same-KeepsShutdown n.world) n (refl, refl)) h

-- From a state in which each room lists exactly the players whose `room` points at it, each once, and
-- no pointer or map entry leads to an object that was never made, any sequence of steps of the threads
-- leads to such a state again. Iteration over the rooms may meet its entries in any order.
pub Steps-WiredNet : (n n' : Net) → Steps n n' → WiredNet n → WiredNet n'
Steps-WiredNet _ _ (done n) h = h
Steps-WiredNet _ _ (step n n' n'' one more) h =
    Steps-WiredNet n' n'' more (Step-WiredNet n n' one h)
