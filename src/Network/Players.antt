-- ===== src/Network/Players.antt =====
-- No thread gives the game thread a player that was deleted.
use iocp_game_chat_server.Prelude.{ℕ, ◌≡◌, false, some, inl, inr, arith, Option-cases}
use iocp_game_chat_server.State.{World}
use iocp_game_chat_server.JobQueue.{pop}
use iocp_game_chat_server.Server.{get_player}
use iocp_game_chat_server.Dispatch.{game_thread_step}
use iocp_game_chat_server.Game.Live.{Live, run_job-Live, get_player-Live}
use iocp_game_chat_server.Network.{Net}
use iocp_game_chat_server.Network.Beside.{Step-Beside}
use iocp_game_chat_server.Network.Steps.{Step, Steps, done, step, played-cases}

game_thread_step-Live : (w : World) → Live w.game → Live (game_thread_step w).game
unfolding game_thread_step
game_thread_step-Live w h = elim (Option-cases (pop w.jobs)) [
  | inl e ↦ ground (arith, e, h)
  | inr ((job, queue), e) ↦
      let ran =
        run_job-Live job.type job.session (record { header = job.header; body = job.body })
          (record w { jobs = queue }) h in
      ground (arith, e, h, ran)
]

Step-Live : (n n' : Net) → Step n n' → Live n.world.game → Live n'.world.game
Step-Live n n' one h = elim (played-cases one) [
  | inl quiet ↦ rw (Step-Beside n n' one quiet).0.0 h
  | inr (_, here) ↦ rw here (game_thread_step-Live n.world h)
]

Steps-keeps-Live : (n n' : Net) → Steps n n' → Live n.world.game → Live n'.world.game
Steps-keeps-Live _ _ (done n) h = h
Steps-keeps-Live _ _ (step n n' n'' one more) h =
    Steps-keeps-Live n' n'' more (Step-Live n n' one h)

-- No deleted player is reached: after any sequence of steps of the threads, from a game in which the players
-- of the map are all different, made and not deleted, `GetPlayer` gives no session a player that was
-- deleted.
pub Steps-get_player :
    (n n' : Net) (s p : ℕ)
    → Live n.world.game
    → Steps n n'
    → get_player s n'.world ≡ some p
    → n'.world.game.deleted p ≡ false
Steps-get_player n n' s p h run e = get_player-Live s p n'.world (Steps-keeps-Live n n' run h) e
