-- ===== src/RingBuffer/Contents.antt =====
-- The ring as a queue of bytes: its invariant, and what each member function does to its contents.
use iocp_game_chat_server.Prelude.{
  ℕ, ◌+◌, ◌-◌, ◌%◌, ◌^◌, ◌≤◌, ◌<◌, min, ◌≡◌, refl, sym, ap, ap₂, ◌∙◌, true, false, none, some, inl,
  inr, List, [], ◌++◌, arith, ltb, leb, Bool-cases, ge→ltb, length, take, drop, length-take,
  length-drop, take-append-drop, take-append, drop-append, length-replicate, take_all,
}
use iocp_game_chat_server.RingBuffer.{
  RingBuffer, ring_size, fresh, copy_in, copy_round, copy_out_round, write, peek, has, skip,
}
use iocp_game_chat_server.RingBuffer.Arc.{
  arc, lay, length-arc, length-lay, copy_out-arc, copy_in-lay, arc-add, lay-append, arc-lay,
}

pub record IsValid (r : RingBuffer) : Type 0 where
  pub storage : length r.buffer ≡ ring_size
  pub reading : r.read_pos < ring_size
  pub writing : r.write_pos ≡ (r.read_pos + r.stored_bytes) % ring_size
  pub stored : r.stored_bytes ≤ ring_size

-- The stored bytes, oldest first.
abbrev pub contents : RingBuffer → List ℕ
contents r = arc r.buffer r.read_pos r.stored_bytes

pub length-contents : (r : RingBuffer) → length (contents r) ≡ r.stored_bytes
length-contents r = length-arc r.buffer r.read_pos r.stored_bytes

pub fresh-IsValid : IsValid fresh
unfolding fresh
fresh-IsValid = record {
  storage = length-replicate {A = ℕ} ring_size 0;
  reading = omega arith;
  writing = refl;
  stored = omega arith;
}

pub contents-fresh : contents fresh ≡ []
unfolding fresh
contents-fresh = refl

-- Two copies that meet at the end of the storage lay their bytes round it.
copy_in_twice-lay :
    (buf : List ℕ) (w : ℕ) (xs ys : List ℕ)
    → w < ring_size
    → w + length xs ≡ ring_size
    → length ys ≤ ring_size
    → copy_in (copy_in buf w xs) 0 ys ≡ lay buf w (xs ++ ys)
copy_in_twice-lay buf w xs ys p e q =
    let start : (w + length xs) % ring_size ≡ 0 = omega arith in
    copy_in-lay (copy_in buf w xs) 0 ys (omega arith)
    ∙ ap (λ b. lay b 0 ys) (copy_in-lay buf w xs (omega arith))
    ∙ ap (λ k. lay (lay buf w xs) k ys) (sym start)
    ∙ sym (lay-append buf w xs ys p)

copy_round-lay :
    (buf src : List ℕ) (w : ℕ)
    → w < ring_size
    → length src ≤ ring_size
    → copy_round buf w src ≡ lay buf w src
unfolding copy_round
copy_round-lay buf src w p q = elim (Bool-cases (ltb 0 (length src - first))) [
  | inl h ↦
      let cut : first ≡ ring_size - w = ground (arith, h) in
      let l : length (take first src) ≡ ring_size - w = omega (arith, length-take first src) in
      rw h (
        copy_in_twice-lay buf w (take first src) (drop first src) p (omega arith)
          (omega (arith, length-drop first src))
        ∙ ap (lay buf w) (take-append-drop first src))
  | inr h ↦
      let whole : first ≡ length src = ground (arith, h) in
      rw (h, whole)
        (rw (take_all (length src) src (omega arith)) (copy_in-lay buf w src (omega arith)))
]
  where
    first : ℕ
    first = min (length src) (ring_size - w)

-- `Write` refuses exactly what does not fit, changing nothing; else it appends its bytes.
pub write_full :
    (r : RingBuffer) (src : List ℕ)
    → IsValid r
    → ring_size < length (contents r) + length src
    → write r src ≡ (r, false)
unfolding write
write_full r src v h = ground (arith, length-contents r)

-- The ring after a `Write` that fits.
abbrev appended : RingBuffer → List ℕ → RingBuffer
appended r src = record r {
  buffer = lay r.buffer r.write_pos src;
  write_pos = (r.write_pos + length src) % ring_size;
  stored_bytes = r.stored_bytes + length src;
}

write-appended :
    (r : RingBuffer) (src : List ℕ)
    → IsValid r
    → r.stored_bytes + length src ≤ ring_size
    → write r src ≡ (appended r src, true)
unfolding write
write-appended r src v h =
    let room : ltb ((ring_size + 2 ^ 64 - r.stored_bytes) % 2 ^ 64) (length src) ≡ false =
      ge→ltb _ _ (omega arith) in
    let sum : (r.stored_bytes + length src) % 2 ^ 64 ≡ r.stored_bytes + length src = omega arith in
    rw (room, sum, copy_round-lay r.buffer src r.write_pos (omega arith) (omega arith))

appended-IsValid :
    (r : RingBuffer) (src : List ℕ)
    → IsValid r
    → r.stored_bytes + length src ≤ ring_size
    → IsValid (appended r src)
appended-IsValid r src v h = record {
  storage = length-lay r.buffer r.write_pos src ∙ v.storage;
  reading = v.reading;
  writing = omega arith;
  stored = h;
}

contents-appended :
    (r : RingBuffer) (src : List ℕ)
    → IsValid r
    → r.stored_bytes + length src ≤ ring_size
    → contents (appended r src) ≡ contents r ++ src
contents-appended r src v h =
    rw v.writing (arc-lay r.buffer r.read_pos r.stored_bytes src v.storage v.reading h)

pub write_fits :
    (r : RingBuffer) (src : List ℕ)
    → IsValid r
    → length (contents r) + length src ≤ ring_size
    → ((write r src).1 ≡ true)
      × IsValid (write r src).0
      × (contents (write r src).0 ≡ contents r ++ src)
write_fits r src v h =
    let room : r.stored_bytes + length src ≤ ring_size = omega (arith, length-contents r) in
    rw (write-appended r src v room)
      (refl, appended-IsValid r src v room, contents-appended r src v room)

-- `Peek` fails exactly where too little is stored, and else copies the oldest bytes out.
take-contents :
    (r : RingBuffer) (n : ℕ)
    → IsValid r
    → n ≤ r.stored_bytes
    → take n (contents r) ≡ arc r.buffer r.read_pos n
take-contents r n v h =
    let split : n + (r.stored_bytes - n) ≡ r.stored_bytes = omega arith in
    ap (λ k. take n (arc r.buffer r.read_pos k)) (sym split)
    ∙ ap (take n) (arc-add r.buffer r.read_pos n (r.stored_bytes - n) v.reading)
    ∙ ap (λ k. take k (front ++ back)) (sym (length-arc r.buffer r.read_pos n))
    ∙ take-append front back
  where
    front : List ℕ
    front = arc r.buffer r.read_pos n

    back : List ℕ
    back = arc r.buffer ((r.read_pos + n) % ring_size) (r.stored_bytes - n)

drop-contents :
    (r : RingBuffer) (n : ℕ)
    → IsValid r
    → n ≤ r.stored_bytes
    → drop n (contents r) ≡ arc r.buffer ((r.read_pos + n) % ring_size) (r.stored_bytes - n)
drop-contents r n v h =
    let split : n + (r.stored_bytes - n) ≡ r.stored_bytes = omega arith in
    ap (λ k. drop n (arc r.buffer r.read_pos k)) (sym split)
    ∙ ap (drop n) (arc-add r.buffer r.read_pos n (r.stored_bytes - n) v.reading)
    ∙ ap (λ k. drop k (front ++ back)) (sym (length-arc r.buffer r.read_pos n))
    ∙ drop-append front back
  where
    front : List ℕ
    front = arc r.buffer r.read_pos n

    back : List ℕ
    back = arc r.buffer ((r.read_pos + n) % ring_size) (r.stored_bytes - n)

copy_out_round-arc :
    (buf : List ℕ) (h n : ℕ) → h < ring_size → n ≤ ring_size → copy_out_round buf h n ≡ arc buf h n
unfolding copy_out_round
copy_out_round-arc buf h n p q = elim (Bool-cases (ltb 0 (n - min n (ring_size - h)))) [
  | inl e ↦
      let cut : min n (ring_size - h) ≡ ring_size - h = ground (arith, e) in
      let split : (ring_size - h) + (n - (ring_size - h)) ≡ n = ground (arith, e) in
      let start : (h + (ring_size - h)) % ring_size ≡ 0 = omega arith in
      rw (e, cut)
        (ap₂ ◌++◌ (copy_out-arc buf h (ring_size - h) (omega arith)) (
            copy_out-arc buf 0 (n - (ring_size - h)) (omega arith)
            ∙ ap (λ k. arc buf k (n - (ring_size - h))) (sym start))
          ∙ sym (arc-add buf h (ring_size - h) (n - (ring_size - h)) p)
          ∙ ap (arc buf h) split)
  | inr e ↦
      let whole : min n (ring_size - h) ≡ n = ground (arith, e) in
      rw (e, whole) (copy_out-arc buf h n (ground (arith, e)))
]

pub peek_short : (r : RingBuffer) (n : ℕ) → length (contents r) < n → peek r n ≡ none
unfolding peek
peek_short r n h = ground (arith, length-contents r)

pub peek_enough :
    (r : RingBuffer) (n : ℕ)
    → IsValid r
    → n ≤ length (contents r)
    → peek r n ≡ some (take n (contents r))
unfolding peek
peek_enough r n v h =
    let enough : n ≤ r.stored_bytes = omega (arith, length-contents r) in
    rw (ge→ltb r.stored_bytes n enough) (
      ap some (
        copy_out_round-arc r.buffer r.read_pos n v.reading (omega arith)
        ∙ sym (take-contents r n v enough)))

-- `Has` compares with the number of stored bytes.
pub has_lem : (r : RingBuffer) (n : ℕ) → has r n ≡ leb n (length (contents r))
unfolding has
has_lem r n = rw (length-contents r)

-- `Skip` drops the oldest bytes, where as many are stored.
pub skip_lem :
    (r : RingBuffer) (n : ℕ)
    → IsValid r
    → n ≤ length (contents r)
    → IsValid (skip r n) × (contents (skip r n) ≡ drop n (contents r))
unfolding skip
skip_lem r n v h =
    let enough : n ≤ r.stored_bytes = omega (arith, length-contents r) in
    let left : (r.stored_bytes + 2 ^ 64 - n) % 2 ^ 64 ≡ r.stored_bytes - n = omega arith in
    rw left (
      record {
        storage = v.storage;
        reading = omega arith;
        writing = omega arith;
        stored = omega arith;
      },
      sym (drop-contents r n v enough),
    )
