-- ===== src/RingBuffer/Queue.antt =====
-- Sequences of calls on the ring against a bounded queue of bytes.
use iocp_game_chat_server.Prelude.{
  ℕ, ◌+◌, ◌≡◌, refl, ap, Bool, true, false, Option, none, some, inl, inr, List, [], ◌∷◌, ◌++◌,
  arith, leb, if◌then◌else◌, Bool-cases, length, take, drop,
}
use iocp_game_chat_server.RingBuffer.{RingBuffer, ring_size, write, peek, has, skip, read}
use iocp_game_chat_server.RingBuffer.Contents.{
  IsValid, contents, write_full, write_fits, peek_short, peek_enough, has_lem, skip_lem,
}

-- A byte queue bounded by `ring_size`, with the member functions' refusals.
pub data Op : Type 0 where
  writes : List ℕ → Op
  reads peeks skips : ℕ → Op

-- What a call returns: whether it succeeded, and the bytes that it copied out.
abbrev pub Reply : Type 0
Reply = Bool × List ℕ

abbrev reply_of : Option (List ℕ) → Reply
reply_of none = (false, [])
reply_of (some bytes) = (true, bytes)

-- One call of a member function. `Skip` has no guard: its callers ask `Has` first.
pub call : RingBuffer → Op → RingBuffer × Reply
call r (writes src) = let (r', done) = write r src in (r', (done, []))
call r (reads n) = let (r', out) = read r n in (r', reply_of out)
call r (peeks n) = (r, reply_of (peek r n))
call r (skips n) = if has r n then (skip r n, (true, [])) else (r, (false, []))

-- The same on the queue.
pub call_queue : List ℕ → Op → List ℕ × Reply
call_queue q (writes src) =
    if leb (length q + length src) ring_size then (q ++ src, (true, [])) else (q, (false, []))
call_queue q (reads n) = if leb n (length q) then (drop n q, (true, take n q)) else (q, (false, []))
call_queue q (peeks n) = if leb n (length q) then (q, (true, take n q)) else (q, (false, []))
call_queue q (skips n) = if leb n (length q) then (drop n q, (true, [])) else (q, (false, []))

pub replies : RingBuffer → List Op → List Reply
replies r [] = []
replies r (op ∷ ops) = let (r', out) = call r op in out ∷ replies r' ops

pub replies_queue : List ℕ → List Op → List Reply
replies_queue q [] = []
replies_queue q (op ∷ ops) = let (q', out) = call_queue q op in out ∷ replies_queue q' ops

abbrev Agrees : RingBuffer → RingBuffer × Reply → Op → Type 0
Agrees r out op = IsValid out.0 × ((contents out.0, out.1) ≡ call_queue (contents r) op)

writes-Agrees :
    (r : RingBuffer) (src : List ℕ) → IsValid r → Agrees r (call r (writes src)) (writes src)
unfolding call call_queue
writes-Agrees r src v = elim (Bool-cases (leb (length (contents r) + length src) ring_size)) [
  | inl e ↦ ground (arith, write_fits r src v, e)
  | inr e ↦ ground (arith, write_full r src v, e)
]

reads-Agrees : (r : RingBuffer) (n : ℕ) → IsValid r → Agrees r (call r (reads n)) (reads n)
unfolding call call_queue read
reads-Agrees r n v = elim (Bool-cases (leb n (length (contents r)))) [
  | inl e ↦ ground (arith, peek_enough r n v, skip_lem r n v, e)
  | inr e ↦ ground (arith, peek_short r n, e)
]

peeks-Agrees : (r : RingBuffer) (n : ℕ) → IsValid r → Agrees r (call r (peeks n)) (peeks n)
unfolding call call_queue
peeks-Agrees r n v = elim (Bool-cases (leb n (length (contents r)))) [
  | inl e ↦ ground (arith, peek_enough r n v, e)
  | inr e ↦ ground (arith, peek_short r n, e)
]

skips-Agrees : (r : RingBuffer) (n : ℕ) → IsValid r → Agrees r (call r (skips n)) (skips n)
unfolding call call_queue
skips-Agrees r n v = elim (Bool-cases (leb n (length (contents r)))) [
  | inl e ↦ ground (arith, has_lem r n, skip_lem r n v, e)
  | inr e ↦ ground (arith, has_lem r n, e)
]

-- On a valid ring each call of `Write`, `Read`, `Peek` and guarded `Skip` keeps the ring valid, returns
-- what the bounded queue that holds the ring's contents returns, and leaves that queue's contents.
pub call_refines :
    (r : RingBuffer) (op : Op)
    → IsValid r
    → IsValid (call r op).0 × ((contents (call r op).0, (call r op).1) ≡ call_queue (contents r) op)
call_refines r (writes src) v = writes-Agrees r src v
call_refines r (reads n) v = reads-Agrees r n v
call_refines r (peeks n) v = peeks-Agrees r n v
call_refines r (skips n) v = skips-Agrees r n v

-- From a valid ring every sequence of calls of `Write`, `Read`, `Peek` and guarded `Skip` returns
-- the results and the bytes that a queue of at most 8192 bytes, holding the ring's contents, returns.
pub replies_refines :
    (ops : List Op) (r : RingBuffer) → IsValid r → replies r ops ≡ replies_queue (contents r) ops
unfolding replies replies_queue
replies_refines [] r v = refl
replies_refines (op ∷ ops) r v =
    rw (← (call_refines r op v).1)
      (ap (◌∷◌ (call r op).1) (replies_refines ops _ (call_refines r op v).0))
