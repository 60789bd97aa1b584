-- ===== src/RingBuffer.antt =====
-- RingBuffer.h and RingBuffer.cpp: the receive ring, 8192 bytes with modular positions.
-- A size passed to a member function is the length of what is copied, or a natural number: no caller
-- passes a negative one.
pub mod Arc
pub mod Contents
pub mod Queue
use iocp_game_chat_server.Prelude.{
  ℕ, zero, suc, ◌+◌, ◌-◌, ◌%◌, ◌^◌, min, Bool, true, false, Option, none, some, List, [], ◌∷◌, ◌++◌,
  ltb, leb, if◌then◌else◌, length, take, drop, get_or, set, replicate,
}

-- `RING_SIZE`
abbrev pub ring_size : ℕ
ring_size = 8192

pub record RingBuffer : Type 0 where
  pub buffer : List ℕ
  pub read_pos : ℕ
  pub write_pos : ℕ
  pub stored_bytes : ℕ

-- The members' initial values. The array starts with unspecified bytes, here zeros.
pub fresh : RingBuffer
fresh = record { buffer = replicate ring_size 0; read_pos = 0; write_pos = 0; stored_bytes = 0 }

-- `memcpy(buffer + pos, src, n)` for the `n` bytes of `src`
pub copy_in : List ℕ → ℕ → List ℕ → List ℕ
copy_in buf pos [] = buf
copy_in buf pos (x ∷ xs) = copy_in (set buf pos x) (pos + 1) xs

-- `memcpy(dst, buffer + pos, n)`
pub copy_out : List ℕ → ℕ → ℕ → List ℕ
copy_out buf pos zero = []
copy_out buf pos (suc n) = get_or buf pos 0 ∷ copy_out buf (pos + 1) n

-- `size_t` subtraction wraps.
abbrev sub_size : ℕ → ℕ → ℕ
sub_size a b = (a + 2 ^ 64 - b) % 2 ^ 64

-- The two `memcpy` calls of `Write`: up to the end of the storage, and the rest from its start.
pub copy_round : List ℕ → ℕ → List ℕ → List ℕ
copy_round buf pos src =
    let first_copy = min (length src) (ring_size - pos) in
    let head_part = copy_in buf pos (take first_copy src) in
    let remain = length src - first_copy in
    if ltb 0 remain then copy_in head_part 0 (drop first_copy src) else head_part

-- `RingBuffer::Write`
pub write : RingBuffer → List ℕ → RingBuffer × Bool
write r src =
    let size = length src in
    if ltb (sub_size ring_size r.stored_bytes) size then (r, false) else (
      record r {
        buffer = copy_round r.buffer r.write_pos src;
        write_pos = (r.write_pos + size) % ring_size;
        stored_bytes = (r.stored_bytes + size) % 2 ^ 64;
      },
      true,
    )

-- The two `memcpy` calls of `Peek`.
pub copy_out_round : List ℕ → ℕ → ℕ → List ℕ
copy_out_round buf pos size =
    let first_copy = min size (ring_size - pos) in
    let head_part = copy_out buf pos first_copy in
    let remain = size - first_copy in
    if ltb 0 remain then head_part ++ copy_out buf 0 remain else head_part

-- `RingBuffer::Peek`: the bytes that go to `dst`, or `none` for `false`
pub peek : RingBuffer → ℕ → Option (List ℕ)
peek r size =
    if ltb r.stored_bytes size then none else some (copy_out_round r.buffer r.read_pos size)

-- `RingBuffer::Has`
pub has : RingBuffer → ℕ → Bool
has r size = leb size r.stored_bytes

-- `RingBuffer::Skip`
pub skip : RingBuffer → ℕ → RingBuffer
skip r size = record r {
  read_pos = (r.read_pos + size) % ring_size;
  stored_bytes = sub_size r.stored_bytes size;
}

-- `RingBuffer::Read`
pub read : RingBuffer → ℕ → RingBuffer × Option (List ℕ)
read r size = elim (peek r size) [ none ↦ (r, none) | some bytes ↦ (skip r size, some bytes) ]
