-- ===== src/Dispatch.antt =====
-- The functions of the FSM table (FSM.cpp), and the game thread (GameServer.cpp): which handler a
-- job reaches.
use iocp_game_chat_server.Prelude.{ℕ, ◌==◌, false, Option, none, some, if◌then◌else◌}
use iocp_game_chat_server.Packet.{Packet}
use iocp_game_chat_server.State.{
  World, GameJobType, packet, disconnect, connect, shutdown, no_job, logged_in, in_room, player,
  room, put_player,
}
use iocp_game_chat_server.JobQueue.{pop}
use iocp_game_chat_server.Fsm.{Handler, get_handler}
use iocp_game_chat_server.Server.{
  get_player, handle_login, handle_enter_room, on_chat, leave_room, on_session_connected,
  finish_cleanup, remove_player,
}
use iocp_game_chat_server.Lobby.{handle_hello, handle_join_room, broadcast_room_state}
use iocp_game_chat_server.Match.{handle_ready}

-- `FSM_Login`: the state is set whatever `OnLogin` did.
unfoldable pub fsm_login : ℕ → ℕ → Packet → World → World
fsm_login s p pkt w =
    let w' = handle_login s pkt w in put_player w' p (record (player w' p) { state = logged_in })

-- `FSM_EnterRoom`
unfoldable pub fsm_enter_room : ℕ → ℕ → Packet → World → World
fsm_enter_room s p pkt w =
    let w' = handle_enter_room s pkt w in
    elim (player w' p).room [
      | none ↦ w'
      | some _ ↦ put_player w' p (record (player w' p) { state = in_room })
    ]

-- A call through the table
unfoldable pub run_handler : Handler → ℕ → ℕ → Packet → World → World
unfolding fsm_login fsm_enter_room
run_handler Handler.login s p pkt w = fsm_login s p pkt w
run_handler Handler.enter_room s p pkt w = fsm_enter_room s p pkt w
run_handler Handler.chat s p pkt w = on_chat s pkt w
run_handler Handler.hello s p pkt w = handle_hello s pkt w
run_handler Handler.join_room s p pkt w = handle_join_room s pkt w
run_handler Handler.ready s p pkt w = handle_ready s pkt w

-- `GameServer::OnPacket`
unfoldable pub on_packet : ℕ → Packet → World → World
on_packet s pkt w = elim (get_player s w) [
  | none ↦ w
  | some p ↦ elim (get_handler (player w p).state pkt.header.id) [
    | none ↦ w
    | some h ↦ run_handler h s p pkt w
  ]
]

-- The broadcast to the room that a player has left, if it is a game room
unfoldable pub tell_room : Option ℕ → World → World
tell_room none w = w
tell_room (some r) w = if (room w r).capacity == 0 then w else broadcast_room_state r w

-- `GameServer::OnSessionDisconnected`
unfoldable pub on_session_disconnected : ℕ → World → World
on_session_disconnected s w = finish_cleanup s (elim (get_player s w) [
  | none ↦ w
  | some p ↦ tell_room (player w p).room (remove_player s p (leave_room p w))
])

-- The `switch` of `GameThreadLoop`. Only a shutdown job has a null session.
unfoldable pub run_job : GameJobType → Option ℕ → Packet → World → World
run_job packet none pkt w = w
run_job packet (some s) pkt w = on_packet s pkt w
run_job disconnect none pkt w = w
run_job disconnect (some s) pkt w = on_session_disconnected s w
run_job connect none pkt w = w
run_job connect (some s) pkt w = on_session_connected s w
run_job shutdown session pkt w = record w { game = record (w.game) { running = false } }
run_job no_job session pkt w = w

-- One round of `GameThreadLoop`: an empty queue makes the thread wait.
unfoldable pub game_thread_step : World → World
game_thread_step w =
    if w.game.running
    then elim (pop w.jobs) [
      | none ↦ w
      | some (job, queue) ↦
          run_job job.type job.session (record { header = job.header; body = job.body })
            (record w { jobs = queue })
    ]
    else w
