-- ===== src/Client/Console/Typed.antt =====
-- What `main` sends of the lines typed, and what the server makes of it.
use iocp_game_chat_server.Prelude.{
  ℕ, suc, ◌+◌, ◌≤◌, ◌<◌, ◌≡◌, refl, sym, ap, ◌∙◌, true, false, Option, none, some, inl, inr, List,
  [], ◌∷◌, ◌++◌, arith, map, if◌then◌else◌, ltb, ltb→lt, ltb→ge, Bool-cases, length, append-nil,
  append_assoc, replicate,
}
use iocp_game_chat_server.Packet.{
  header_size, max_packet_size, pkt_cs_login, pkt_cs_enter_room, pkt_cs_chat,
}
use iocp_game_chat_server.Client.{send_packet, send_login, send_enter_room, send_chat, write_i32_le}
use iocp_game_chat_server.Client.Packets.{Message, wire_of, wires, send_packet-packet_bytes}
use iocp_game_chat_server.Client.Text.{
  Command, nothing, quit, help, clear, unknown, chat, command_of, command_of_trimmed, trim,
}
use iocp_game_chat_server.Client.Sockets.{Winsock, Documented, Healthy, Outgoing}
use iocp_game_chat_server.Client.Sockets.Exact.{send_all_lem}
use iocp_game_chat_server.Client.Console.{
  Echo, send_failed, me, echoed, send_built, greet, input_loop, run_client,
}

-- The messages among the lines: those before a line that quits, and before one that fits no packet.
abbrev pub chats_of : List (List ℕ) → List (List ℕ)
chats_of [] = []
chats_of (line ∷ lines) =
    let later = chats_of lines in
    elim (command_of line) [
      | nothing ↦ later
      | quit ↦ []
      | help ↦ later
      | clear ↦ later
      | unknown ↦ later
      | chat m ↦ if ltb max_packet_size (header_size + length m) then [] else m ∷ later
    ]

abbrev pub chat_message : List ℕ → Message
chat_message m = record { id = pkt_cs_chat; body = m }

-- No line is taken for an empty message.
chat_has_text : (t m : List ℕ) → command_of_trimmed t ≡ chat m → 0 < length m
unfolding command_of_trimmed
chat_has_text [] m e = absurd (cc)
chat_has_text (c ∷ s) [] e = ground (arith, e)
chat_has_text (c ∷ s) (d ∷ m) e = omega arith

-- What is sent leads from the bytes before to these.
abbrev Sends : Option (List Echo × Outgoing) → List Message → Outgoing → Type 0
Sends r ms o =
    (shown : List Echo) × (o' : Outgoing) × (r ≡ some (shown, o')) × (o'.sent ≡ o.sent ++ wires ms)

Sends-echoed :
    (e : Echo) (r : Option (List Echo × Outgoing)) (ms : List Message) (o : Outgoing)
    → Sends r ms o
    → Sends (echoed e r) ms o
Sends-echoed e r ms o (shown, o', returns, sent) = rw returns (e ∷ shown, o', refl, sent)

Sends-nothing : (shown : List Echo) (o : Outgoing) → Sends (some (shown, o)) [] o
Sends-nothing shown o = (shown, o, refl, sym (append-nil o.sent))

Sends-more :
    (r : Option (List Echo × Outgoing)) (m : Message) (ms : List Message) (o o' : Outgoing)
    → o'.sent ≡ o.sent ++ wire_of m
    → Sends r ms o'
    → Sends r (m ∷ ms) o
Sends-more r m ms o o' one (shown, o'', returns, sent) = (
  shown,
  o'',
  returns,
  sent ∙ ap (λ xs. xs ++ wires ms) one ∙ append_assoc o.sent (wire_of m) (wires ms),
)

-- A packet that fits is sent as a whole.
send_built_lem :
    (k : Winsock) (m : Message) (o : Outgoing)
    → Documented k
    → Healthy k
    → header_size + length m.body ≤ max_packet_size
    → (o' : Outgoing) × (send_built k (send_packet m.id m.body) o ≡ some (true, o'))
      × (o'.sent ≡ o.sent ++ wire_of m)
unfolding send_built
send_built_lem k m o d h fits =
    let (o', all, sent) = send_all_lem k (wire_of m) o d h in
    (o', ap (λ p. send_built k p o) (send_packet-packet_bytes m fits) ∙ all, sent)

send_chat_fits : (m : List ℕ) → 0 < length m → send_chat m ≡ send_packet pkt_cs_chat m
unfolding send_chat
send_chat_fits m h = ground (arith, h)

send_chat_long : (m : List ℕ) → max_packet_size < header_size + length m → send_chat m ≡ none
unfolding send_chat send_packet
send_chat_long m h = ground (arith, h)

-- A line by what it is taken for.
input_loop-line :
    (k : Winsock) (c : Command) (n : ℕ) (line : List ℕ) (lines : List (List ℕ)) (o : Outgoing)
    → Documented k
    → Healthy k
    → command_of line ≡ c
    → ((o' : Outgoing)
        → Sends (input_loop k (λ _. true) (suc n) lines o') (map chat_message (chats_of lines)) o')
    → Sends
        (input_loop k (λ _. true) n (line ∷ lines) o)
        (map chat_message (chats_of (line ∷ lines)))
        o
unfolding input_loop
input_loop-line k nothing n line lines o d h e later = rw (input_loop, chats_of, e) (later o)
input_loop-line k quit n line lines o d h e later =
    rw (input_loop, chats_of, e) (Sends-nothing [] o)
input_loop-line k help n line lines o d h e later =
    rw (input_loop, chats_of, e) (Sends-echoed _ _ _ o (later o))
input_loop-line k clear n line lines o d h e later =
    rw (input_loop, chats_of, e) (Sends-echoed _ _ _ o (later o))
input_loop-line k unknown n line lines o d h e later =
    rw (input_loop, chats_of, e) (Sends-echoed _ _ _ o (later o))
input_loop-line k (chat m) n line lines o d h e later =
    let text = chat_has_text (trim line) m (unfold command_of in e) in
    elim (Bool-cases (ltb max_packet_size (header_size + length m))) [
      | inl long ↦
          let refused : send_built k (send_chat m) o ≡ some (false, o) =
            ap (λ p. send_built k p o) (send_chat_long m (ltb→lt _ _ long)) in
          rw (input_loop, chats_of, e, long, refused) (Sends-nothing (send_failed ∷ []) o)
      | inr short ↦
          let (o', sends, sent) =
            send_built_lem k (chat_message m) o d h (ltb→ge max_packet_size _ short) in
          let sends' : send_built k (send_chat m) o ≡ some (true, o') =
            ap (λ p. send_built k p o) (send_chat_fits m text) ∙ sends in
          rw (input_loop, chats_of, e, short, sends')
            (Sends-more _ (chat_message m) _ o o' sent (Sends-echoed (me m) _ _ o' (later o')))
    ]

input_loop-sent :
    (k : Winsock) (n : ℕ) (lines : List (List ℕ)) (o : Outgoing)
    → Documented k
    → Healthy k
    → Sends (input_loop k (λ _. true) n lines o) (map chat_message (chats_of lines)) o
unfolding input_loop
input_loop-sent k n [] o d h = Sends-nothing [] o
input_loop-sent k n (line ∷ lines) o d h =
    input_loop-line k (command_of line) n line lines o d h refl
      (λ o'. input_loop-sent k (suc n) lines o' d h)

-- Everything that `main` sends: LOGIN with the name, ENTER_ROOM with the room, and the chats.
abbrev pub typed_messages : List ℕ → ℕ → List (List ℕ) → List Message
typed_messages nickname room_id lines =
    record { id = pkt_cs_login; body = nickname }
    ∷ record { id = pkt_cs_enter_room; body = write_i32_le (replicate 4 0) 0 room_id }
    ∷ map chat_message (chats_of lines)

-- What `main` sends: over a connection without errors, and while `running` stays set, it comes to the end
-- of the lines, and the bytes handed to the kernel are those of LOGIN, ENTER_ROOM and one CHAT for
-- each line that is no command, trimmed, up to a line that quits or that fits no packet. The name fits a
-- packet.
pub run_client-sent :
    (k : Winsock) (nickname : List ℕ) (room_id : ℕ) (lines : List (List ℕ)) (o : Outgoing)
    → Documented k
    → Healthy k
    → header_size + length nickname ≤ max_packet_size
    → (shown : List Echo) × (o' : Outgoing) × (run_client k (λ _. true) nickname room_id lines o
        ≡ some (shown, o'))
      × (o'.sent ≡ o.sent ++ wires (typed_messages nickname room_id lines))
unfolding run_client greet send_login send_enter_room
run_client-sent k nickname room_id lines o d h fits =
    let login : Message = record { id = pkt_cs_login; body = nickname } in
    let enter : Message = record {
      id = pkt_cs_enter_room;
      body = write_i32_le (replicate 4 0) 0 room_id;
    } in
    let chats = map chat_message (chats_of lines) in
    let (o₁, sends₁, sent₁) = send_built_lem k login o d h fits in
    let (o₂, sends₂, sent₂) = send_built_lem k enter o₁ d h (unfold write_i32_le in omega arith) in
    rw (run_client, greet, sends₁, sends₂)
      (Sends-more _ login (enter ∷ chats) o o₁ sent₁
        (Sends-more _ enter chats o₁ o₂ sent₂ (input_loop-sent k 0 lines o₂ d h)))
