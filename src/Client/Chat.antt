-- ===== src/Client/Chat.antt =====
-- The chat packet that `Player::SendChat` builds, as the client's `ParseServerChat` reads it.
use iocp_game_chat_server.Prelude.{
  ℕ, ◌+◌, ◌%◌, ◌^◌, ◌≤◌, ◌<◌, ◌≡◌, ap, sym, ◌∙◌, some, List, ◌++◌, arith, length, take, drop,
  take_all, take-append, drop-append, length-append, append_assoc, ge→ltb, u16, get_or,
}
use iocp_game_chat_server.Wire.{chat_body, le16, le32}
use iocp_game_chat_server.Wire.RoundTrip.{get_or-append}
use iocp_game_chat_server.Client.{read_u16_le, read_u32_le, parse_server_chat}

read_u16_le-le16 :
    (front rest : List ℕ) (v : ℕ)
    → v < 2 ^ 16
    → read_u16_le (front ++ (le16 v ++ rest)) (length front) ≡ v
unfolding read_u16_le
read_u16_le-le16 front rest v h =
    let first : get_or (front ++ (le16 v ++ rest)) (length front) 0 ≡ v % 256 =
      ap (λ k. get_or (front ++ (le16 v ++ rest)) k 0) (omega arith)
      ∙ get_or-append front (le16 v ++ rest) 0 in
    rw (first, get_or-append front (le16 v ++ rest) 1) (omega arith)

-- The parts of a chat body, without the casts that change nothing.
abbrev chat_parts : ℕ → List ℕ → List ℕ → List ℕ
chat_parts id name msg = (le32 id ++ (le16 (length name) ++ name)) ++ (le16 (length msg) ++ msg)

chat_body-parts :
    (id : ℕ) (name msg : List ℕ)
    → length name < 2 ^ 16
    → length msg < 2 ^ 16
    → chat_body id name msg ≡ chat_parts id name msg
unfolding chat_body
chat_body-parts id name msg hn hm =
    let n : u16 (length name) ≡ length name = omega arith in
    let m : u16 (length msg) ≡ length msg = omega arith in
    rw (n, m, take_all (length name) name (omega arith), take_all (length msg) msg (omega arith))
      (sym (
        append_assoc (le32 id) (le16 (length name) ++ name) (le16 (length msg) ++ msg)
        ∙ ap (◌++◌ (le32 id)) (append_assoc (le16 (length name)) name (le16 (length msg) ++ msg))))

-- What the parser reads of a body, field by field.
record Reads (body : List ℕ) (id : ℕ) (name msg : List ℕ) : Type 0 where
  id_read : read_u32_le body 0 ≡ id
  name_len : read_u16_le body 4 ≡ length name
  name_read : take (length name) (drop 6 body) ≡ name
  msg_len : read_u16_le body (6 + length name) ≡ length msg
  msg_read : take (length msg) (drop (6 + length name + 2) body) ≡ msg
  size : length body ≡ 6 + length name + 2 + length msg

parse_server_chat-Reads :
    (body : List ℕ) (id : ℕ) (name msg : List ℕ)
    → Reads body id name msg
    → parse_server_chat body ≡ some (id, name, msg)
unfolding parse_server_chat
parse_server_chat-Reads body id name msg r = rw (
  r.name_len,
  r.msg_len,
  ge→ltb (length body) 8 (omega arith),
  ge→ltb (length body) (6 + length name + 2) (omega arith),
  ge→ltb (length body) (6 + length name + 2 + length msg) (omega arith),
  r.id_read,
  r.name_read,
  r.msg_read,
)

chat_parts-Reads :
    (id : ℕ) (name msg : List ℕ)
    → id < 2 ^ 32
    → length name < 2 ^ 16
    → length msg < 2 ^ 16
    → Reads (chat_parts id name msg) id name msg
chat_parts-Reads id name msg hid hn hm = record {
  id_read = unfold read_u32_le in omega arith;
  name_len = unfold read_u16_le in omega arith;
  name_read = take-append name (le16 (length msg) ++ msg);
  msg_len =
      ap (read_u16_le (chat_parts id name msg)) (sym front_length)
      ∙ read_u16_le-le16 front msg (length msg) hm;
  msg_read =
      ap (λ k. take (length msg) (drop k (chat_parts id name msg))) end_length
      ∙ ap (take (length msg)) (
          ap (drop (length (front ++ le16 (length msg))))
            (sym (append_assoc front (le16 (length msg)) msg))
          ∙ drop-append (front ++ le16 (length msg)) msg)
      ∙ take_all (length msg) msg (omega arith);
  size = omega (arith, front_length, length-append front (le16 (length msg) ++ msg));
}
  where
    front : List ℕ
    front = le32 id ++ (le16 (length name) ++ name)

    front_length : length front ≡ 6 + length name
    front_length = omega arith

    end_length : 6 + length name + 2 ≡ length (front ++ le16 (length msg))
    end_length = omega (arith, front_length, length-append front (le16 (length msg)))

-- The client's `ParseServerChat` reads from the body that `Player::SendChat` builds exactly the sender's
-- id, the name and the message, for a 32-bit id and a chat packet of at most 4096 bytes.
pub parse_server_chat-chat_body :
    (id : ℕ) (name msg : List ℕ)
    → id < 2 ^ 32
    → length name + length msg + 12 ≤ 4096
    → parse_server_chat (chat_body id name msg) ≡ some (id, name, msg)
parse_server_chat-chat_body id name msg hid fits =
    rw (chat_body-parts id name msg (omega arith) (omega arith)) (
      parse_server_chat-Reads _ id name msg
        (chat_parts-Reads id name msg hid (omega arith) (omega arith)))
