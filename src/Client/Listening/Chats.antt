-- ===== src/Client/Listening/Chats.antt =====
-- What `RecvThread` shows of the packets that the server sends.
use iocp_game_chat_server.Prelude.{
  ℕ, suc, ◌+◌, ◌^◌, ◌≤◌, ◌<◌, ◌≡◌, refl, sym, ap, subst, ◌∙◌, true, some, List, [], ◌∷◌, ◌++◌,
  arith, map, length, take_all, length-append, u16,
}
use iocp_game_chat_server.Packet.{max_packet_size}
use iocp_game_chat_server.Session.{packet_bytes}
use iocp_game_chat_server.Session.Sending.{IsFramed, packet_bytes-IsFramed}
use iocp_game_chat_server.Receive.Chunks.{joined}
use iocp_game_chat_server.Wire.{chat_body, le16}
use iocp_game_chat_server.Room.Broadcast.{chat_packet}
use iocp_game_chat_server.Client.Chat.{parse_server_chat-chat_body}
use iocp_game_chat_server.Client.Sockets.{Winsock, Documented, Healthy, Incoming}
use iocp_game_chat_server.Client.Listening.{
  Shown, line, connection_closed, chat_line, handle_packet, recv_thread,
}
use iocp_game_chat_server.Client.Listening.Frames.{
  AllWhole, shown_packets, handled, handled-packet_bytes, recv_thread-packets,
}

-- A chat as the server sends it: the sender's id and name, and the message.
pub record Said : Type 0 where
  pub id : ℕ
  pub name : List ℕ
  pub text : List ℕ

pub record Sayable (c : Said) : Type 0 where
  pub id_small : c.id < 2 ^ 32
  pub fits : length c.name + length c.text + 12 ≤ max_packet_size

abbrev pub AllSayable : List Said → Type 0
AllSayable [] = Unit {0}
AllSayable (c ∷ cs) = Sayable c × AllSayable cs

abbrev pub chat_wires : List Said → List ℕ
chat_wires [] = []
chat_wires (c ∷ cs) = chat_packet c.id c.name c.text ++ chat_wires cs

abbrev pub line_of : Said → Shown
line_of c = line (chat_line c.id c.name c.text)

abbrev pub said_packet : Said → List ℕ
said_packet c = chat_packet c.id c.name c.text

length-chat_body :
    (c : Said)
    → Sayable c
    → length (chat_body c.id c.name c.text) ≡ 8 + length c.name + length c.text
unfolding chat_body
length-chat_body c s =
    let n : u16 (length c.name) ≡ length c.name = omega (arith, s.fits) in
    let m : u16 (length c.text) ≡ length c.text = omega (arith, s.fits) in
    let name = take_all (length c.name) c.name (omega arith) in
    let text = take_all (length c.text) c.text (omega arith) in
    rw (n, m, name, text) (omega (arith, length-append c.name (le16 (length c.text) ++ c.text)))

-- `SendChat` gives `SendPacket` the whole body.
said_packet_whole :
    (c : Said)
    → Sayable c
    → said_packet c
      ≡ packet_bytes 3 (chat_body c.id c.name c.text) (length (chat_body c.id c.name c.text))
said_packet_whole c s =
    let size : u16 (4 + 2 + length c.name + 2 + length c.text)
        ≡ length (chat_body c.id c.name c.text) =
      omega (arith, length-chat_body c s, s.fits) in
    ap (packet_bytes 3 (chat_body c.id c.name c.text)) size

IsFramed-said_packet : (c : Said) → Sayable c → IsFramed (said_packet c)
IsFramed-said_packet c s =
    let long = length-chat_body c s in
    subst IsFramed (sym (said_packet_whole c s)) (
      packet_bytes-IsFramed 3 (chat_body c.id c.name c.text) _ (omega arith)
        (omega (arith, long, s.fits)))

pub handled-said_packet : (c : Said) → Sayable c → handled (said_packet c) ≡ (line_of c, true)
unfolding handle_packet
handled-said_packet c s =
    ap handled (said_packet_whole c s)
    ∙ handled-packet_bytes 3 (chat_body c.id c.name c.text) (omega arith)
    ∙ rw (parse_server_chat-chat_body c.id c.name c.text s.id_small s.fits) refl

AllWhole-chats : (cs : List Said) → AllSayable cs → AllWhole (map said_packet cs)
AllWhole-chats [] ok = tt
AllWhole-chats (c ∷ cs) (one, ok) = (IsFramed-said_packet c one, AllWhole-chats cs ok)

chat_wires-joined : (cs : List Said) → chat_wires cs ≡ joined (map said_packet cs)
chat_wires-joined [] = refl
chat_wires-joined (c ∷ cs) = ap (◌++◌ (said_packet c)) (chat_wires-joined cs)

shown_packets-chats :
    (cs : List Said)
    → AllSayable cs
    → shown_packets (map said_packet cs) ≡ map line_of cs ++ (connection_closed ∷ [])
shown_packets-chats [] ok = refl
shown_packets-chats (c ∷ cs) (one, ok) =
    rw (handled-said_packet c one, shown_packets-chats cs ok) refl

-- The chats that the server sends are the lines that the client shows: over a connection without errors
-- that carries these chat packets, as `Player::SendChat` builds them, and then closes, `RecvThread`
-- returns and has shown exactly one line for each, with the sender's name (or "Player " and the id,
-- where the name is empty) and the message, in order, and the notice of the end. Every packet fits 4096
-- bytes, every id 32 bits, and `running` stays set.
pub recv_thread-chats :
    (k : Winsock) (cs : List Said) (i : Incoming)
    → Documented k
    → Healthy k
    → AllSayable cs
    → i.coming ≡ chat_wires cs
    → (i' : Incoming) × (recv_thread k (λ _. true) (suc (length i.coming)) 0 i
        ≡ some (map line_of cs ++ (connection_closed ∷ []), i'))
recv_thread-chats k cs i d h ok e = rw (sym (shown_packets-chats cs ok)) (
    recv_thread-packets k (map said_packet cs) i d h (AllWhole-chats cs ok)
      (e ∙ chat_wires-joined cs))
