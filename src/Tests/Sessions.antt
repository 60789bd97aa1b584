-- ===== src/Tests/Sessions.antt =====
-- Sessions, the FSM and the registry on sample states.
use iocp_game_chat_server.Prelude.{
  ℕ, ◌≡◌, ◌↔◌, ◌⊎◌, inl, refl, true, false, some, [], ◌∷◌, ◌++◌, arith, if◌then◌else◌,
}
use iocp_game_chat_server.Packet.{is_known_packet_id}
use iocp_game_chat_server.State.{is_connected, closed, disconnect, PlayerState, in_room}
use iocp_game_chat_server.JobQueue.{job_of}
use iocp_game_chat_server.Session.{fresh_session, request_close}
use iocp_game_chat_server.Session.Lifecycle.{Settled, request_close_once}
use iocp_game_chat_server.Session.Pending.{IsCounted, count}
use iocp_game_chat_server.Fsm.{Handler, chat, get_handler}
use iocp_game_chat_server.Fsm.Table.{Allows, get_handler-Allows, known-iff-handled}
use iocp_game_chat_server.Network.{Net, try_destroy_session, remove}
use iocp_game_chat_server.Network.Destroy.{try_destroy_session_lem}
use iocp_game_chat_server.Tests.Data.{started, over}

started-Settled : Settled (started.sessions 5)
unfolding fresh_session
started-Settled = inl (refl, refl)

started-IsCounted : (s : ℕ) → IsCounted s started
unfolding fresh_session
started-IsCounted s = refl

over-IsCounted : IsCounted 5 over
unfolding fresh_session
over-IsCounted = refl

request_close_once_example :
    let w' = request_close 5 started in
    ((w'.sessions 5).state ≡ closed)
    × (w'.jobs ≡ (
        if is_connected (started.sessions 5).state
        then started.jobs ++ (job_of disconnect (some 5) ∷ [])
        else started.jobs))
    × (request_close 5 w' ≡ w')
request_close_once_example = request_close_once 5 started started-Settled

get_handler-Allows_example : (get_handler in_room 2 ≡ some chat) ↔ Allows in_room 2 chat
get_handler-Allows_example = get_handler-Allows in_room 2 chat

known-iff-handled_example :
    (is_known_packet_id 22 ≡ true)
    ↔ ((st : PlayerState) × (h : Handler) × (get_handler st 22 ≡ some h))
known-iff-handled_example = known-iff-handled 22

-- The registry holds sessions 5 and 6; session 5 can go.
abbrev net : Net
net = record { world = over; registry = (7, 5) ∷ ((8, 6) ∷ []); freed = [] }

try_destroy_session_lem_example :
    let n' = try_destroy_session 5 net in
    ((n'.freed ≡ net.freed) × (n'.registry ≡ net.registry))
    ⊎ ((n'.freed ≡ 5 ∷ net.freed)
        × (is_connected (net.world.sessions 5).state ≡ false)
        × ((net.world.sessions 5).game_cleanup_done ≡ true)
        × (count 5 net.world.in_flight ≡ 0)
        × ((net.world.sessions 5).destroying ≡ false)
        × ((n'.world.sessions 5).destroying ≡ true)
        × (n'.registry ≡ remove 5 net.registry))
try_destroy_session_lem_example = try_destroy_session_lem 5 net over-IsCounted (omega arith)
