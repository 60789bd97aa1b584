-- ===== src/Client/Sockets/Loops.antt =====
-- `SendAll` and `RecvAll` return, and what they leave.
use iocp_game_chat_server.Prelude.{
  ℕ, zero, suc, ◌+◌, ◌-◌, ◌≤◌, ◌<◌, ◌≡◌, ◌⊎◌, refl, sym, ap, subst, ◌∙◌, Bool, true, false, Option,
  none, some, inl, inr, List, [], ◌∷◌, ◌++◌, arith, ltb, Bool-cases, Option-cases, ltb→lt, ltb→ge,
  length, take, drop, append-nil, append_assoc, drop-drop, length-drop, take_all,
}
use iocp_game_chat_server.Client.Sockets.{
  Winsock, Documented, Outgoing, Incoming, took, gave, send_all_from, send_all, recv_all_from,
  recv_all,
}

pub take-add {ℓ} :
    {A : Type ℓ} (m n : ℕ) (xs : List A) → take (m + n) xs ≡ take m xs ++ take n (drop m xs)
take-add zero n xs = let e : 0 + n ≡ n = omega arith in rw e
take-add {A = A} (suc m) n [] =
    let e : suc m + n ≡ suc (m + n) = omega arith in rw (e, take_all {A = A} n [] (omega arith))
take-add (suc m) n (x ∷ xs) =
    let e : suc m + n ≡ suc (m + n) = omega arith in rw e (ap (◌∷◌ x) (take-add m n xs))

-- Some call of `send` failed or took nothing.
abbrev pub Refuses : Winsock → Type 0
Refuses k = (n : ℕ) × (len : ℕ) × (0 < len) × ((k.send n len ≡ none) ⊎ (k.send n len ≡ some 0))

-- What a loop of `SendAll` leaves of these bytes.
abbrev pub Handed : Winsock → Option (Bool × Outgoing) → List ℕ → Outgoing → Type 0
Handed k r bytes o =
    (done : Bool) × (o' : Outgoing) × (m : ℕ) × (r ≡ some (done, o'))
    × (m ≤ length bytes)
    × (o'.sent ≡ o.sent ++ take m bytes)
    × (((done ≡ true) × (m ≡ length bytes)) ⊎ ((done ≡ false) × (m < length bytes) × Refuses k))

Handed-more :
    (k : Winsock) (n : ℕ) (r : Option (Bool × Outgoing)) (bytes : List ℕ) (o : Outgoing)
    → n ≤ length bytes
    → Handed k r (drop n bytes) (took n bytes o)
    → Handed k r bytes o
Handed-more k n r bytes o h (done, o', m, e, small, sent, all) = (
  done,
  o',
  n + m,
  e,
  omega (arith, small, h, length-drop n bytes),
  sent ∙ append_assoc o.sent (take n bytes) _ ∙ ap (◌++◌ o.sent) (sym (take-add n m bytes)),
  elim all [
    | inl (d, whole) ↦ inl (d, omega (arith, h, length-drop n bytes, whole))
    | inr (d, part, refuses) ↦ inr (d, omega (arith, h, length-drop n bytes, part), refuses)
  ],
)

-- A call that fails, or takes nothing.
refused :
    (k : Winsock) (bytes : List ℕ) (t n len : ℕ) (o : Outgoing)
    → 0 < length (drop t bytes)
    → 0 < len
    → (k.send n len ≡ none) ⊎ (k.send n len ≡ some 0)
    → Handed k (some (false, took 0 bytes o)) (drop t bytes) o
refused k bytes t n len o left room e =
    (false, took 0 bytes o, 0, refl, omega arith, refl, inr (refl, left, (n, len, room, e)))

send_all_from-Handed :
    (k : Winsock) (fuel : ℕ) (bytes : List ℕ) (t : ℕ) (o : Outgoing)
    → Documented k
    → t ≤ length bytes
    → length bytes - t < fuel
    → Handed k (send_all_from k fuel bytes t o) (drop t bytes) o
unfolding send_all_from
send_all_from-Handed k zero bytes t o d h enough = absurd (omega arith)
send_all_from-Handed k (suc fuel) bytes t o d h enough = elim (Bool-cases (ltb t (length bytes))) [
  | inr end ↦
      let past : length (drop t bytes) ≡ 0 =
        omega (arith, length-drop t bytes, ltb→ge t (length bytes) end) in
      rw (send_all_from, end)
        (true, o, 0, refl, omega arith, sym (append-nil o.sent), inl (refl, sym past))
  | inl more ↦
      let room : 0 < length bytes - t = omega (arith, ltb→lt t (length bytes) more) in
      let left : 0 < length (drop t bytes) =
        omega (arith, length-drop t bytes, ltb→lt t (length bytes) more) in
      elim (Option-cases (k.send o.calls (length bytes - t))) [
        | inl e ↦ rw (send_all_from, more, e) (refused k bytes t _ _ o left room (inl e))
        | inr (zero, e) ↦ rw (send_all_from, more, e) (refused k bytes t _ _ o left room (inr e))
        | inr (suc m, e) ↦
            let within = d.send_within o.calls (length bytes - t) (suc m) e in
            let rest =
              send_all_from-Handed k fuel bytes (t + suc m) (took (suc m) (drop t bytes) o) d
                (omega arith) (omega arith) in
            rw (send_all_from, more, e)
              (Handed-more k (suc m) _ (drop t bytes) o (omega (arith, length-drop t bytes, within))
                (rw (drop-drop t (suc m) bytes) rest))
      ]
]

-- `SendAll` returns, whatever `send` answers: it has handed the first bytes to the kernel, once each and in
-- order; either these are all and it says `true`, or they are not, it says `false`, and some call of `send`
-- failed or took nothing. `send` is taken to take no more than it is offered.
pub send_all-Handed :
    (k : Winsock) (bytes : List ℕ) (o : Outgoing)
    → Documented k
    → Handed k (send_all k bytes o) bytes o
unfolding send_all
send_all-Handed k bytes o d =
    send_all_from-Handed k (suc (length bytes)) bytes 0 o d (omega arith) (omega arith)

-- Some call of `recv`, with room, failed or gave nothing when so many bytes had come.
abbrev pub Dries : Winsock → ℕ → Type 0
Dries k came =
    (n : ℕ) × (len : ℕ) × (0 < len) × ((k.recv n len came ≡ none) ⊎ (k.recv n len came ≡ some 0))

-- What a loop of `RecvAll` leaves, that is to read so many bytes more.
abbrev pub Filled : Winsock → Option (Option (List ℕ) × Incoming) → ℕ → List ℕ → Incoming → Type 0
Filled k r len buffer i =
    (got : Option (List ℕ)) × (i' : Incoming) × (m : ℕ) × (r ≡ some (got, i'))
    × (m ≤ len)
    × (m ≤ length i.coming)
    × (i'.coming ≡ drop m i.coming)
    × (((got ≡ none) × (m < len) × Dries k (length i.coming - m))
        ⊎ ((got ≡ some (buffer ++ take m i.coming)) × (m ≡ len)))

Filled-more :
    (k : Winsock) (n : ℕ) (r : Option (Option (List ℕ) × Incoming)) (len : ℕ) (buffer : List ℕ)
    (i : Incoming)
    → n ≤ len
    → n ≤ length i.coming
    → Filled k r (len - n) (buffer ++ take n i.coming) (gave n i)
    → Filled k r len buffer i
Filled-more k n r len buffer i h here (got, i', m, e, small, there, left, outcome) = (
  got,
  i',
  n + m,
  e,
  omega arith,
  omega (arith, here, there, length-drop n i.coming),
  left ∙ drop-drop n m i.coming,
  elim outcome [
    | inl (fails, less, dries) ↦
        let same : length (drop n i.coming) - m ≡ length i.coming - (n + m) =
          omega (arith, length-drop n i.coming) in
        inl (fails, omega arith, rw (sym same) dries)
    | inr (fills, all) ↦ inr (
      fills
          ∙ ap some (
              append_assoc buffer (take n i.coming) _
              ∙ ap (◌++◌ buffer) (sym (take-add n m i.coming))),
      omega arith,
    )
  ],
)

nothing_came :
    (k : Winsock) (n len : ℕ) (buffer : List ℕ) (i : Incoming)
    → 0 < len
    → (k.recv n len (length i.coming) ≡ none) ⊎ (k.recv n len (length i.coming) ≡ some 0)
    → Filled k (some (none, gave 0 i)) len buffer i
nothing_came k n len buffer i h e =
    let whole : length i.coming - 0 ≡ length i.coming = omega arith in
    (
      none,
      gave 0 i,
      0,
      refl,
      omega arith,
      omega arith,
      refl,
      inl (refl, h, (n, len, h, rw whole e)),
    )

recv_all_from-Filled :
    (k : Winsock) (fuel len t : ℕ) (buffer : List ℕ) (i : Incoming)
    → Documented k
    → t ≤ len
    → len - t < fuel
    → Filled k (recv_all_from k fuel len t buffer i) (len - t) buffer i
unfolding recv_all_from
recv_all_from-Filled k zero len t buffer i d h enough = absurd (omega arith)
recv_all_from-Filled k (suc fuel) len t buffer i d h enough = elim (Bool-cases (ltb t len)) [
  | inr end ↦
      rw (recv_all_from, end)
        (
          some buffer,
          i,
          0,
          refl,
          omega arith,
          omega arith,
          refl,
          inr (ap some (sym (append-nil buffer)), omega (arith, ltb→ge t len end)),
        )
  | inl more ↦
      let left : 0 < len - t = omega (arith, ltb→lt t len more) in
      elim (Option-cases (k.recv i.calls (len - t) (length i.coming))) [
        | inl e ↦ rw (recv_all_from, more, e) (nothing_came k _ (len - t) buffer i left (inl e))
        | inr (zero, e) ↦
            rw (recv_all_from, more, e) (nothing_came k _ (len - t) buffer i left (inr e))
        | inr (suc m, e) ↦
            let (fits, here) = d.recv_within i.calls (len - t) (length i.coming) (suc m) e in
            let apart : len - (t + suc m) ≡ len - t - suc m = omega arith in
            let rest =
              recv_all_from-Filled k fuel len (t + suc m) (buffer ++ take (suc m) i.coming)
                (gave (suc m) i) d (omega arith) (omega arith) in
            rw (recv_all_from, more, e)
              (Filled-more k (suc m) _ (len - t) buffer i fits here (rw (sym apart) rest))
      ]
]

-- `RecvAll` returns, whatever `recv` answers. It says `true` exactly when it has the number of bytes asked
-- for; the buffer then holds the first that came, and they are read.
pub recv_all-Filled :
    (k : Winsock) (len : ℕ) (i : Incoming) → Documented k → Filled k (recv_all k len i) len [] i
unfolding recv_all
recv_all-Filled k len i d =
    let whole : len - 0 ≡ len = omega arith in
    let lem : Filled k (recv_all_from k (suc len) len 0 [] i) (len - 0) [] i =
      recv_all_from-Filled k (suc len) len 0 [] i d (omega arith) (omega arith) in
    subst (λ l. Filled k (recv_all_from k (suc len) len 0 [] i) l [] i) whole lem
