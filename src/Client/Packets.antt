-- ===== src/Client/Packets.antt =====
-- The packets that the client sends, as the server's receive loop cuts them.
use iocp_game_chat_server.Prelude.{
  ℕ, ◌+◌, ◌^◌, ◌≤◌, ◌<◌, ◌≡◌, refl, some, List, [], ◌∷◌, ◌++◌, arith, length, take, drop, take_all,
  take-append, drop-append, length-append, ge→ltb, suc, map, true,
}
use iocp_game_chat_server.Packet.{
  Packet, header_size, max_packet_size, is_valid, is_known_packet_id,
}
use iocp_game_chat_server.State.{World}
use iocp_game_chat_server.RingBuffer.Contents.{contents}
use iocp_game_chat_server.JobQueue.{packet_job}
use iocp_game_chat_server.Session
use iocp_game_chat_server.Session.Rings.{ring_of}
use iocp_game_chat_server.Receive.{header_of}
use iocp_game_chat_server.Receive.Frames.{cut, frame, front_packet, rest}
use iocp_game_chat_server.Receive.Split.{Splits, waits, takes}
use iocp_game_chat_server.Receive.Stream.{AllPass, Receiving}
use iocp_game_chat_server.Receive.Chunks.{receive_all, joined, Chunks, receive_all-jobs}
use iocp_game_chat_server.Client.{send_packet}

-- What is sent: an id and a body.
pub record Message : Type 0 where
  pub id : ℕ
  pub body : List ℕ

-- A message that fits a packet, of an id that the server knows.
pub record Sendable (m : Message) : Type 0 where
  pub fits : header_size + length m.body ≤ max_packet_size
  pub id_small : m.id < 2 ^ 16
  pub known : is_known_packet_id m.id ≡ true

abbrev pub AllSendable : List Message → Type 0
AllSendable [] = Unit {0}
AllSendable (m ∷ ms) = Sendable m × AllSendable ms

abbrev pub packet_of : Message → Packet
packet_of m = record {
  header = record { size = header_size + length m.body; id = m.id };
  body = m.body;
}

abbrev pub wire_of : Message → List ℕ
wire_of m = Session.packet_bytes m.id m.body (length m.body)

abbrev pub wires : List Message → List ℕ
wires [] = []
wires (m ∷ ms) = wire_of m ++ wires ms

-- The client's `SendPacket` and the server's build the same bytes from an id and a body whose packet has
-- at most 4096 bytes.
pub send_packet-packet_bytes :
    (m : Message)
    → header_size + length m.body ≤ max_packet_size
    → send_packet m.id m.body ≡ some (wire_of m)
unfolding send_packet Session.packet_bytes Session.header_bytes
send_packet-packet_bytes m fits =
    let four : header_size + length m.body ≡ suc (suc (suc (suc (length m.body)))) = omega arith in
    rw (
      ge→ltb max_packet_size (header_size + length m.body) fits,
      take_all (length m.body) m.body (omega arith),
      four,
    )

-- What the loop reads of a message's packet.
front_of_wire :
    (m : Message) (ys : List ℕ)
    → Sendable m
    → (header_of (wire_of m ++ ys) ≡ (packet_of m).header)
      × (take (length m.body) (drop header_size (wire_of m ++ ys)) ≡ m.body)
      × (drop (header_size + length m.body) (wire_of m ++ ys) ≡ ys)
      × (length (wire_of m ++ ys) ≡ header_size + length m.body + length ys)
unfolding header_of Session.packet_bytes Session.header_bytes
front_of_wire m ys s =
    let whole = take_all (length m.body) m.body (omega arith) in
    let four : header_size + length m.body ≡ suc (suc (suc (suc (length m.body)))) = omega arith in
    (
      ground (arith, s.fits, s.id_small),
      rw whole (take-append m.body ys),
      rw (whole, four) (drop-append m.body ys),
      rw whole (omega (arith, length-append m.body ys)),
    )

-- The loop cuts a message's packet off the front of whatever follows it.
cut-wire : (m : Message) (ys : List ℕ) → Sendable m → cut (wire_of m ++ ys) ≡ frame (packet_of m) ys
unfolding cut front_packet
cut-wire m ys s =
    let four : header_size + length m.body ≡ suc (suc (suc (suc (length m.body)))) = omega arith in
    let (header, body, past, long) = front_of_wire m ys s in
    ground (arith, header, body, past, long)

pub Splits-wires :
    (ms : List Message) → AllSendable ms → Splits (wires ms) (map packet_of ms) (rest [])
Splits-wires [] ok = waits [] (unfold cut in refl)
Splits-wires (m ∷ ms) (one, ok) =
    takes (wire_of m ++ wires ms) (packet_of m) (wires ms) (cut-wire m (wires ms) one)
      (Splits-wires ms ok)

pub AllPass-packets : (ms : List Message) → AllSendable ms → AllPass (map packet_of ms)
AllPass-packets [] ok = tt
AllPass-packets (m ∷ ms) (one, ok) =
    ((unfold is_valid in ground (arith, one.fits), one.known), AllPass-packets ms ok)

-- Encoded messages reach the game's queue: whatever messages are sent, each of an id that the server
-- knows and of a size that fits, and however their bytes are cut into completions of 1 to 4096 bytes,
-- the receive handler returns each time, the job queue gets exactly these messages, in order, and the
-- session's ring is empty again. The session starts connected with an empty, well-formed ring, the
-- server runs and the kernel takes every operation.
pub receive_all-messages :
    (s : ℕ) (ms : List Message) (cs : List (List ℕ)) (w : World)
    → Receiving s w
    → contents (ring_of w s) ≡ []
    → AllSendable ms
    → Chunks cs
    → joined cs ≡ wires ms
    → (w' : World) × (receive_all s cs w ≡ some w')
      × (contents (ring_of w' s) ≡ [])
      × (w'.jobs ≡ w.jobs ++ map (packet_job s) (map packet_of ms))
receive_all-messages s ms cs w h empty ok chunks all =
    let split : Splits (contents (ring_of w s) ++ joined cs) (map packet_of ms) (rest []) =
      rw (empty, all) (Splits-wires ms ok) in
    let (w', done, _, kept, jobs) =
      receive_all-jobs s cs w (map packet_of ms) [] h chunks split (AllPass-packets ms ok) in
    (w', done, kept, jobs)
