-- ===== src/Tests/Receiving.antt =====
-- The receive path on sample streams.
use iocp_game_chat_server.Prelude.{
  ℕ, ◌+◌, ◌≤◌, ◌<◌, ◌≡◌, refl, true, some, List, [], ◌∷◌, ◌++◌, arith, map, length,
}
use iocp_game_chat_server.State.{World, is_connected}
use iocp_game_chat_server.RingBuffer.{ring_size}
use iocp_game_chat_server.RingBuffer.{fresh}
use iocp_game_chat_server.RingBuffer.Contents.{contents, fresh-IsValid, contents-fresh}
use iocp_game_chat_server.RingBuffer.Queue.{
  Op, writes, reads, peeks, skips, replies, replies_queue, replies_refines,
}
use iocp_game_chat_server.JobQueue.{packet_job}
use iocp_game_chat_server.Session.{fresh_session, packet_bytes, header_bytes}
use iocp_game_chat_server.Session.Rings.{ring_of}
use iocp_game_chat_server.Packet.{is_known_packet_id}
use iocp_game_chat_server.Receive.{on_recv_complete, finish}
use iocp_game_chat_server.Receive.Frames.{cut, frames, rest}
use iocp_game_chat_server.Receive.Loop.{loop_spec}
use iocp_game_chat_server.Receive.Split.{Splits}
use iocp_game_chat_server.Receive.Stream.{Receiving, received, on_recv_complete_lem}
use iocp_game_chat_server.Receive.Chunks.{receive_all, joined, Chunks, receive_all-jobs}
use iocp_game_chat_server.Receive.Total.{RingsValid}
use iocp_game_chat_server.Client.Packets.{
  Message, AllSendable, packet_of, wires, Splits-wires, AllPass-packets, receive_all-messages,
}
use iocp_game_chat_server.Tests.Data.{started}

-- The login of "A", and a chat message "hi"
abbrev login_message : Message
login_message = record { id = 1; body = 65 ∷ [] }

abbrev chat_message : Message
chat_message = record { id = 2; body = 104 ∷ (105 ∷ []) }

abbrev messages : List Message
messages = login_message ∷ (chat_message ∷ [])

messages-AllSendable : AllSendable messages
unfolding is_known_packet_id
messages-AllSendable = (
  record { fits = omega arith; id_small = omega arith; known = refl },
  (record { fits = omega arith; id_small = omega arith; known = refl }, tt),
)

-- The stream of the two packets, in three pieces that end inside a header and inside a body
abbrev pieces : List (List ℕ)
pieces =
    (5 ∷ (0 ∷ (1 ∷ []))) ∷ ((0 ∷ (65 ∷ (6 ∷ (0 ∷ (2 ∷ (0 ∷ (104 ∷ []))))))) ∷ ((105 ∷ []) ∷ []))

pieces-wires : joined pieces ≡ wires messages
unfolding packet_bytes header_bytes
pieces-wires = refl

pieces-Chunks : Chunks pieces
pieces-Chunks =
    (omega arith, omega arith, (omega arith, omega arith, (omega arith, omega arith, tt)))

started-empty : (s : ℕ) → ring_of started s ≡ fresh
unfolding fresh_session
started-empty s = refl

started-RingsValid : RingsValid started
started-RingsValid j = rw (started-empty j) fresh-IsValid

pub started-contents : contents (ring_of started 5) ≡ []
started-contents = rw (started-empty 5) contents-fresh

pub started-Receiving : Receiving 5 started
started-Receiving = record {
  healthy = record { connected = unfold fresh_session in refl; up = refl; accepting = λ n. refl };
  valid = started-RingsValid 5;
  waiting = rw started-contents (unfold cut in refl);
}

messages-Splits :
    Splits (contents (ring_of started 5) ++ joined pieces) (map packet_of messages) (rest [])
messages-Splits = rw (started-contents, pieces-wires) (Splits-wires messages messages-AllSendable)

started-connected : is_connected (started.sessions 5).state ≡ true
unfolding fresh_session
started-connected = refl

wires-some : 0 < length (wires messages)
unfolding packet_bytes header_bytes
wires-some = omega arith

wires-fit : length (contents (ring_of started 5)) + length (wires messages) ≤ ring_size
unfolding packet_bytes header_bytes
wires-fit = rw started-contents (omega arith)

receive_all-messages_example :
    (w' : World) × (receive_all 5 pieces started ≡ some w')
    × (contents (ring_of w' 5) ≡ [])
    × (w'.jobs ≡ started.jobs ++ map (packet_job 5) (map packet_of messages))
receive_all-messages_example =
    receive_all-messages 5 messages pieces started started-Receiving started-contents
      messages-AllSendable pieces-Chunks pieces-wires

receive_all-jobs_example :
    (w' : World) × (receive_all 5 pieces started ≡ some w')
    × Receiving 5 w'
    × (contents (ring_of w' 5) ≡ [])
    × (w'.jobs ≡ started.jobs ++ map (packet_job 5) (map packet_of messages))
receive_all-jobs_example =
    receive_all-jobs 5 pieces started (map packet_of messages) [] started-Receiving pieces-Chunks
      messages-Splits (AllPass-packets messages messages-AllSendable)

on_recv_complete_lem_example :
    on_recv_complete 5 (wires messages) true started
    ≡ finish 5 (
        loop_spec 5
          (received 5 (wires messages) started)
          (frames (contents (ring_of started 5) ++ wires messages)))
on_recv_complete_lem_example =
    on_recv_complete_lem 5 (wires messages) started (started-RingsValid 5) started-connected
      wires-some wires-fit

abbrev script : List Op
script = writes (8 ∷ (9 ∷ [])) ∷ (peeks 2 ∷ (reads 1 ∷ (skips 2 ∷ (skips 1 ∷ (reads 1 ∷ [])))))

replies_refines_example : replies fresh script ≡ replies_queue (contents fresh) script
replies_refines_example = replies_refines script fresh fresh-IsValid
