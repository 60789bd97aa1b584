-- ===== src/Fsm.antt =====
-- FSM.cpp: which packets a player's state allows, and the table's functions.
pub mod Table
use iocp_game_chat_server.Prelude.{ℕ, Bool, Option, none, some, ◌&&◌, ltb, ◌==◌, if◌then◌else◌}
use iocp_game_chat_server.Packet.{
  pkt_cs_login, pkt_cs_chat, pkt_cs_enter_room, pkt_cs_hello, pkt_cs_join_room, pkt_cs_ready,
  pkt_sc_kick,
}
use iocp_game_chat_server.State.{PlayerState, no_player, logged_in, in_room, in_game, leaving}

-- The functions that the table holds, `FSM_Login` and so on.
pub data Handler : Type 0 where
  login enter_room chat hello join_room ready : Handler

-- `(int)st`
unfoldable pub state_index : PlayerState → ℕ
state_index no_player = 0
state_index logged_in = 1
state_index in_room = 2
state_index in_game = 3
state_index leaving = 4

abbrev pub max_packet_id : ℕ
max_packet_id = pkt_sc_kick

-- `g_FSM`: null where nothing is assigned
abbrev pub Table : Type 0
Table = PlayerState → ℕ → Option Handler

-- `g_FSM[(int)state][id] = handler`
unfoldable pub assign : PlayerState → ℕ → Handler → Table → Table
unfolding state_index
assign st id h table st' id' =
    if state_index st' == state_index st && id' == id then some h else table st' id'

-- `InitFSM`
unfoldable pub init_fsm : Table
unfolding assign
init_fsm = assign in_room pkt_cs_ready ready (
    assign logged_in pkt_cs_join_room join_room (
      assign no_player pkt_cs_hello hello (
        assign in_room pkt_cs_enter_room enter_room (
          assign in_room pkt_cs_chat chat (
            assign logged_in pkt_cs_enter_room enter_room
              (assign no_player pkt_cs_login login (λ st id. none)))))))

-- `GetHandler`
unfoldable pub get_handler : PlayerState → ℕ → Option Handler
unfolding init_fsm
get_handler st id = if ltb max_packet_id id then none else init_fsm st id
