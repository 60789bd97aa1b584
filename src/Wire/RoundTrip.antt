-- ===== src/Wire/RoundTrip.antt =====
-- Reading back what the writers write.
use iocp_game_chat_server.Prelude.{
  ℕ, ◌+◌, ◌/◌, ◌%◌, ◌^◌, ◌<◌, ◌≡◌, ap, sym, ◌∙◌, List, [], ◌∷◌, ◌++◌, arith, length, get_or, suc,
  append_assoc,
}
use iocp_game_chat_server.Wire.{put_u32, read_u16, read_u32, le16, le32}

-- `Writer` writes the same bytes as a `memcpy` of the integer would.
pub put_u32-le32 : (buf : List ℕ) (v : ℕ) → put_u32 buf v ≡ buf ++ le32 v
unfolding put_u32
put_u32-le32 buf v = let e : v / 2 ^ 0 % 256 ≡ v % 256 = omega arith in simp (append_assoc, e)

-- Reading behind a prefix is reading at the start of the rest.
pub get_or-append : (xs ys : List ℕ) (i : ℕ) → get_or (xs ++ ys) (length xs + i) 0 ≡ get_or ys i 0
get_or-append [] ys i = let e : 0 + i ≡ i = omega arith in rw e
get_or-append (x ∷ xs) ys i =
    let e : suc (length xs) + i ≡ suc (length xs + i) = omega arith in rw e (get_or-append xs ys i)

pub read_u16-le16 : (v : ℕ) (rest : List ℕ) → v < 2 ^ 16 → read_u16 (le16 v ++ rest) 0 ≡ v
unfolding read_u16
read_u16-le16 v rest h = omega arith

pub read_u32-le32 : (v : ℕ) (rest : List ℕ) → v < 2 ^ 32 → read_u32 (le32 v ++ rest) 0 ≡ v
unfolding read_u32
read_u32-le32 v rest h = omega arith

pub read_u16-append :
    (xs ys : List ℕ) (offset : ℕ) → length xs ≡ offset → read_u16 (xs ++ ys) offset ≡ read_u16 ys 0
unfolding read_u16
read_u16-append xs ys offset e =
    let first : get_or (xs ++ ys) offset 0 ≡ get_or ys 0 0 =
      ap (λ k. get_or (xs ++ ys) k 0) (omega (arith, e)) ∙ get_or-append xs ys 0 in
    let second : get_or (xs ++ ys) (offset + 1) 0 ≡ get_or ys 1 0 =
      ap (λ k. get_or (xs ++ ys) (k + 1) 0) (sym e) ∙ get_or-append xs ys 1 in
    rw (first, second)
