-- ===== src/Client.antt =====
-- client.cpp: the console client's encoding and decoding of packets.
pub mod Text
pub mod Sockets
pub mod Listening
pub mod Console
pub mod Settings
pub mod Chat
pub mod Packets
use iocp_game_chat_server.Prelude.{
  ℕ, ◌+◌, ◌-◌, ◌/◌, ◌%◌, ◌*◌, ◌^◌, Bool, true, false, Option, none, some, List, [], ◌∷◌, ◌++◌, ltb,
  ◌==◌, ◌&&◌, leb, if◌then◌else◌, length, get_or, set, take, drop, replicate,
}
use iocp_game_chat_server.Packet.{
  header_size, max_packet_size, pkt_cs_login, pkt_cs_chat, pkt_cs_enter_room,
}

-- `ReadUInt16LE`, `ReadUInt32LE`: the `|` of shifted bytes is their sum, since no two share a bit.
pub read_u16_le : List ℕ → ℕ → ℕ
read_u16_le buffer offset = get_or buffer offset 0 + get_or buffer (offset + 1) 0 * 2 ^ 8

pub read_u32_le : List ℕ → ℕ → ℕ
read_u32_le buffer offset =
    get_or buffer offset 0
    + get_or buffer (offset + 1) 0 * 2 ^ 8
    + get_or buffer (offset + 2) 0 * 2 ^ 16
    + get_or buffer (offset + 3) 0 * 2 ^ 24

-- `WriteUInt16LE`
pub write_u16_le : List ℕ → ℕ → ℕ → List ℕ
write_u16_le buffer offset value =
    set (set buffer offset (value % 256)) (offset + 1) (value / 2 ^ 8 % 256)

-- `WriteInt32LE`, of the bit pattern of an `int32_t`
unfoldable pub write_i32_le : List ℕ → ℕ → ℕ → List ℕ
write_i32_le buffer offset value =
    set
      (set (set (set buffer offset (value % 256)) (offset + 1) (value / 2 ^ 8 % 256)) (offset + 2)
        (value / 2 ^ 16 % 256))
      (offset + 3) (value / 2 ^ 24 % 256)

-- `SendPacket`: the packet handed to `SendAll`, or `none` where the size is refused. The `memcpy`
-- fills all behind the header.
pub send_packet : ℕ → List ℕ → Option (List ℕ)
unfolding write_u16_le
send_packet pkt_id body =
    let packet_size = header_size + length body in
    let packet = write_u16_le (write_u16_le (replicate packet_size 0) 0 packet_size) 2 pkt_id in
    if ltb max_packet_size packet_size then none else some (take header_size packet ++ body)

-- `SendLogin`
pub send_login : List ℕ → Option (List ℕ)
send_login nickname = send_packet pkt_cs_login nickname

-- `SendEnterRoom`
pub send_enter_room : ℕ → Option (List ℕ)
unfolding write_i32_le
send_enter_room room_id = send_packet pkt_cs_enter_room (write_i32_le (replicate 4 0) 0 room_id)

-- `SendChat`: an empty message is refused.
pub send_chat : List ℕ → Option (List ℕ)
send_chat message = if length message == 0 then none else send_packet pkt_cs_chat message

-- `ParseServerChat`: the sender's id, the sender's name and the message, or `none` for `false`
pub parse_server_chat : List ℕ → Option (ℕ × List ℕ × List ℕ)
parse_server_chat body =
    let size = length body in
    let sender_id = read_u32_le body 0 in
    let name_len = read_u16_le body 4 in
    let name = take name_len (drop 6 body) in
    let offset = 6 + name_len in
    let msg_len = read_u16_le body offset in
    if ltb size 8
    then none
    else if ltb size (6 + name_len + 2)
    then none
    else if ltb size (offset + 2 + msg_len)
    then none
    else some (sender_id, name, take msg_len (drop (offset + 2) body))
