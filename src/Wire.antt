-- ===== src/Wire.antt =====
-- The byte layouts of GameServer.cpp (`Writer`, the `memcpy` reads of the handlers) and Player.cpp
-- (`SendChat`). The host is little-endian, so a `memcpy` of an integer moves its low byte first.
pub mod RoundTrip
use iocp_game_chat_server.Prelude.{
  ℕ, zero, suc, ◌+◌, ◌*◌, ◌/◌, ◌%◌, ◌^◌, List, [], ◌∷◌, ◌++◌, length, get_or, take, drop, u16,
}

-- `Writer`: each operation appends to `buf`.
unfoldable pub put_u8 : List ℕ → ℕ → List ℕ
put_u8 buf v = buf ++ ((v % 256) ∷ [])

unfoldable pub put_u16 : List ℕ → ℕ → List ℕ
put_u16 buf v = buf ++ ((v % 256) ∷ (v / 256 % 256) ∷ [])

-- The rounds of the loop in `U32`, for `i` from 4 - n on.
unfoldable pub put_u32_from : ℕ → ℕ → List ℕ → ℕ → List ℕ
put_u32_from zero i buf v = buf
put_u32_from (suc n) i buf v = put_u32_from n (i + 1) (buf ++ ((v / 2 ^ (8 * i) % 256) ∷ [])) v

unfoldable pub put_u32 : List ℕ → ℕ → List ℕ
unfolding put_u32_from
put_u32 buf v = put_u32_from 4 0 buf v

-- An `int32_t` is its bit pattern.
unfoldable pub put_i32 : List ℕ → ℕ → List ℕ
unfolding put_u32
put_i32 buf v = put_u32 buf v

unfoldable pub put_str : List ℕ → List ℕ → List ℕ
unfolding put_u16
put_str buf v = put_u16 buf (u16 (length v)) ++ v

-- `Writer::Size`
unfoldable pub writer_size : List ℕ → ℕ
writer_size buf = u16 (length buf)

-- What a `memcpy` out of a buffer at an offset reads.
unfoldable pub read_u8 : List ℕ → ℕ → ℕ
read_u8 buf offset = get_or buf offset 0

unfoldable pub read_u16 : List ℕ → ℕ → ℕ
read_u16 buf offset = get_or buf offset 0 + get_or buf (offset + 1) 0 * 256

unfoldable pub read_u32 : List ℕ → ℕ → ℕ
read_u32 buf offset =
    get_or buf offset 0
    + get_or buf (offset + 1) 0 * 2 ^ 8
    + get_or buf (offset + 2) 0 * 2 ^ 16
    + get_or buf (offset + 3) 0 * 2 ^ 24

-- What a `memcpy` of an integer writes.
abbrev pub le16 : ℕ → List ℕ
le16 v = (v % 256) ∷ (v / 256 % 256) ∷ []

abbrev pub le32 : ℕ → List ℕ
le32 v = (v % 256) ∷ (v / 2 ^ 8 % 256) ∷ (v / 2 ^ 16 % 256) ∷ (v / 2 ^ 24 % 256) ∷ []

-- The body that `Player::SendChat` fills, field by field. The guard before it keeps both lengths
-- below 2 ^ 16.
unfoldable pub chat_body : ℕ → List ℕ → List ℕ → List ℕ
chat_body sender_id name msg =
    le32 sender_id
    ++ (le16 (u16 (length name))
        ++ (take (u16 (length name)) name
            ++ (le16 (u16 (length msg)) ++ take (u16 (length msg)) msg)))
