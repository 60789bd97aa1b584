-- ===== src/Protocol.antt =====
-- Protocol.cpp: the checks between the network and the game.
use iocp_game_chat_server.Prelude.{ℕ, none, not, if◌then◌else◌}
use iocp_game_chat_server.Packet.{Packet, is_valid, is_known_packet_id, pkt_sc_kick}
use iocp_game_chat_server.State.{World, is_closing, is_shutting_down}
use iocp_game_chat_server.JobQueue.{enqueue_packet_job}
use iocp_game_chat_server.Session.{send_packet, request_close}

-- A kick: the notice is sent, then the session is closed.
unfoldable pub kick : ℕ → World → World
kick s w = request_close s (send_packet s pkt_sc_kick none 0 w)

-- `ProcessPacket`
unfoldable pub process_packet : ℕ → Packet → World → World
process_packet s pkt w =
    if is_shutting_down w
    then w
    else if is_closing (w.sessions s).state
    then w
    else if not (is_valid pkt)
    then kick s w
    else if not (is_known_packet_id pkt.header.id)
    then kick s w
    else enqueue_packet_job s pkt w
