-- ===== src/JobQueue.antt =====
-- GameJobQueue.cpp and the functions of GameServer.cpp that fill the queue. Each call holds the
-- queue's mutex throughout, so it is one step.
use iocp_game_chat_server.Prelude.{
  ℕ, ◌-◌, Option, none, some, List, [], ◌∷◌, ◌++◌, if◌then◌else◌, take,
}
use iocp_game_chat_server.Packet.{PacketHeader, Packet, header_size}
use iocp_game_chat_server.State.{
  World, GameJob, GameJobType, packet, disconnect, connect, shutdown, is_shutting_down,
}

-- `GameJobQueue::Push`
unfoldable pub push : List GameJob → GameJob → List GameJob
push queue job = queue ++ (job ∷ [])

-- `GameJobQueue::Pop`
unfoldable pub pop : List GameJob → Option (GameJob × List GameJob)
pop [] = none
pop (job ∷ queue) = some (job, queue)

abbrev pub push_job : World → GameJob → World
push_job w job = record w { jobs = push w.jobs job }

abbrev no_header : PacketHeader
no_header = record { size = 0; id = 0 }

abbrev pub job_of : GameJobType → Option ℕ → GameJob
job_of t s = record { type = t; session = s; header = no_header; body = [] }

-- The job that carries a packet: the header, and a copy of the body.
abbrev pub packet_job : ℕ → Packet → GameJob
packet_job s pkt = record {
  type = packet;
  session = some s;
  header = pkt.header;
  body = take (pkt.header.size - header_size) pkt.body;
}

-- `GameServer::EnqueuePacketJob`
unfoldable pub enqueue_packet_job : ℕ → Packet → World → World
enqueue_packet_job s pkt w = if is_shutting_down w then w else push_job w (packet_job s pkt)

-- `GameServer::EnqueueDisconnectJob`
unfoldable pub enqueue_disconnect_job : ℕ → World → World
enqueue_disconnect_job s w = push_job w (job_of disconnect (some s))

-- `GameServer::EnqueueConnectJob`
unfoldable pub enqueue_connect_job : ℕ → World → World
enqueue_connect_job s w = if is_shutting_down w then w else push_job w (job_of connect (some s))

-- `GameServer::EnqueueShutdownJob`
unfoldable pub enqueue_shutdown_job : World → World
enqueue_shutdown_job w = push_job w (job_of shutdown none)
