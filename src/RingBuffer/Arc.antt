-- ===== src/RingBuffer/Arc.antt =====
-- Arcs of the storage: the bytes met from a position on, going round at `ring_size`, and writes
-- that go round the same way.
use iocp_game_chat_server.Prelude.{
  ℕ, zero, suc, ◌+◌, ◌-◌, ◌%◌, ◌≤◌, ◌<◌, ◌≡◌, refl, sym, ap, ap₂, ◌∙◌, ◌⊎◌, inl, inr, List, [], ◌∷◌,
  ◌++◌, arith, length, get_or, set, length-set, get_or-set_self, get_or-set_ne, append-nil,
  append_assoc,
}
use iocp_game_chat_server.RingBuffer.{ring_size, copy_in, copy_out}

-- `n` bytes from position `h` on
abbrev pub arc : List ℕ → ℕ → ℕ → List ℕ
arc buf h zero = []
arc buf h (suc n) = get_or buf h 0 ∷ arc buf ((h + 1) % ring_size) n

-- bytes written one by one from position `w` on
abbrev pub lay : List ℕ → ℕ → List ℕ → List ℕ
lay buf w [] = buf
lay buf w (x ∷ xs) = lay (set buf w x) ((w + 1) % ring_size) xs

pub length-arc : (buf : List ℕ) (h n : ℕ) → length (arc buf h n) ≡ n
length-arc buf h zero = refl
length-arc buf h (suc n) = ap suc (length-arc buf ((h + 1) % ring_size) n)

pub length-lay : (buf : List ℕ) (w : ℕ) (xs : List ℕ) → length (lay buf w xs) ≡ length buf
length-lay buf w [] = refl
length-lay buf w (x ∷ xs) = length-lay (set buf w x) ((w + 1) % ring_size) xs ∙ length-set buf w x

-- Where a run of `n` bytes from `h` does not reach the end, stepping wraps only behind its last byte.
step_cases : (h n : ℕ) → h + suc n ≤ ring_size → (n ≡ 0) ⊎ ((h + 1) % ring_size ≡ h + 1)
step_cases h zero p = inl refl
step_cases h (suc n) p = inr (omega arith)

-- An arc that does not reach the end of the storage is one `memcpy`.
pub copy_out-arc : (buf : List ℕ) (h n : ℕ) → h + n ≤ ring_size → copy_out buf h n ≡ arc buf h n
unfolding copy_out
copy_out-arc buf h zero p = refl
copy_out-arc buf h (suc n) p = ap (◌∷◌ (get_or buf h 0)) (elim (step_cases h n p) [
  | inl e ↦ rw e
  | inr e ↦ rw e (copy_out-arc buf (h + 1) n (omega arith))
])

pub copy_in-lay :
    (buf : List ℕ) (w : ℕ) (xs : List ℕ)
    → w + length xs ≤ ring_size
    → copy_in buf w xs ≡ lay buf w xs
unfolding copy_in
copy_in-lay buf w [] p = refl
copy_in-lay buf w (x ∷ []) p = refl
copy_in-lay buf w (x ∷ y ∷ xs) p =
    let e : (w + 1) % ring_size ≡ w + 1 = omega arith in
    rw e (copy_in-lay (set buf w x) (w + 1) (y ∷ xs) (omega arith))

-- An arc splits at any of its bytes.
pub arc-add :
    (buf : List ℕ) (h m n : ℕ)
    → h < ring_size
    → arc buf h (m + n) ≡ arc buf h m ++ arc buf ((h + m) % ring_size) n
arc-add buf h zero n p =
    let e : (h + 0) % ring_size ≡ h = omega arith in let f : 0 + n ≡ n = omega arith in rw (e, f)
arc-add buf h (suc m) n p =
    let e : (h + suc m) % ring_size ≡ ((h + 1) % ring_size + m) % ring_size = omega arith in
    let f : suc m + n ≡ suc (m + n) = omega arith in
    rw (e, f) (ap (◌∷◌ (get_or buf h 0)) (arc-add buf ((h + 1) % ring_size) m n (omega arith)))

pub lay-append :
    (buf : List ℕ) (w : ℕ) (xs ys : List ℕ)
    → w < ring_size
    → lay buf w (xs ++ ys) ≡ lay (lay buf w xs) ((w + length xs) % ring_size) ys
lay-append buf w [] ys p = let e : (w + 0) % ring_size ≡ w = omega arith in rw e
lay-append buf w (x ∷ xs) ys p =
    let e : (w + suc (length xs)) % ring_size ≡ ((w + 1) % ring_size + length xs) % ring_size =
      omega arith in
    rw e (lay-append (set buf w x) ((w + 1) % ring_size) xs ys (omega arith))

-- A write outside an arc leaves the arc alone.
arc-set_outside :
    (buf : List ℕ) (h n k i x : ℕ)
    → h < ring_size
    → n ≤ k
    → k < ring_size
    → i ≡ (h + k) % ring_size
    → arc (set buf i x) h n ≡ arc buf h n
arc-set_outside buf h zero k i x p q s e = refl
arc-set_outside buf h (suc n) k i x p q s e = ap₂ ◌∷◌ (get_or-set_ne buf i h x 0 (omega arith)) (
    arc-set_outside buf ((h + 1) % ring_size) n (k - 1) i x (omega arith) (omega arith)
      (omega arith) (omega arith))

-- Bytes laid just behind an arc extend it.
pub arc-lay :
    (buf : List ℕ) (h n : ℕ) (xs : List ℕ)
    → length buf ≡ ring_size
    → h < ring_size
    → n + length xs ≤ ring_size
    → arc (lay buf ((h + n) % ring_size) xs) h (n + length xs) ≡ arc buf h n ++ xs
arc-lay buf h n [] l p q = let e : n + 0 ≡ n = omega arith in rw e (sym append-nil')
  where
    append-nil' : arc buf h n ++ [] ≡ arc buf h n
    append-nil' = append-nil (arc buf h n)
arc-lay buf h n (x ∷ xs) l p q =
    let w = (h + n) % ring_size in
    let next : (w + 1) % ring_size ≡ (h + (n + 1)) % ring_size = omega arith in
    let more : n + suc (length xs) ≡ (n + 1) + length xs = omega arith in
    let whole : (n + 1) + length xs ≤ ring_size = omega arith in
    rw (next, more)
      (arc-lay (set buf w x) h (n + 1) xs (length-set buf w x ∙ l) p whole
        ∙ ap (λ ys. ys ++ xs) one
        ∙ append_assoc (arc buf h n) (x ∷ []) xs)
  where
    one : arc (set buf ((h + n) % ring_size) x) h (n + 1) ≡ arc buf h n ++ (x ∷ [])
    one =
        arc-add (set buf ((h + n) % ring_size) x) h n 1 p
        ∙ ap₂ ◌++◌
            (arc-set_outside buf h n n ((h + n) % ring_size) x p (omega arith) (omega arith) refl)
            (ap (λ b. b ∷ []) (get_or-set_self buf ((h + n) % ring_size) x 0 (omega arith)))
