-- ===== src/Client/Listening/Returns.antt =====
-- `RecvThread` ends, whatever comes.
use iocp_game_chat_server.Prelude.{
  ℕ, zero, suc, ◌+◌, ◌-◌, ◌≤◌, ◌<◌, ◌≡◌, ◌⊎◌, refl, Bool, false, Option, some, inl, inr, List, [],
  ◌∷◌, arith, ltb, ◌||◌, Bool-cases, Option-cases, length, take, length-drop,
}
use iocp_game_chat_server.Packet.{header_size, max_packet_size}
use iocp_game_chat_server.Client.{read_u16_le}
use iocp_game_chat_server.Client.Sockets.{Winsock, Documented, Incoming}
use iocp_game_chat_server.Client.Sockets.Loops.{recv_all-Filled}
use iocp_game_chat_server.Client.Listening.{Shown, read_body, receive_body, recv_round, recv_thread}

-- A body is read or not, and no more comes than before.
read_body-returns :
    (k : Winsock) (size : ℕ) (i : Incoming)
    → Documented k
    → (got : Option (List ℕ)) × (i' : Incoming) × (read_body k size i ≡ some (got, i'))
      × (length i'.coming ≤ length i.coming)
unfolding read_body
read_body-returns k size i d = elim (Bool-cases (ltb 0 size)) [
  | inr e ↦ rw (read_body, e) (some [], i, refl, omega arith)
  | inl e ↦
      let (got, i', m, returns, _, _, left, _) = recv_all-Filled k size i d in
      let less : length i'.coming ≤ length i.coming =
        rw left (omega (arith, length-drop m i.coming)) in
      rw (read_body, e) (got, i', returns, less)
]

-- A round that goes on has read a header at least.
abbrev Ran : Option (Shown × Bool × Incoming) → Incoming → Type 0
Ran r i =
    (shown : Shown) × (on : Bool) × (i' : Incoming) × (r ≡ some (shown, on, i'))
    × ((on ≡ false) ⊎ (length i'.coming + header_size ≤ length i.coming))

receive_body-Ran :
    (k : Winsock) (size id : ℕ) (i i' : Incoming)
    → Documented k
    → length i'.coming + header_size ≤ length i.coming
    → Ran (receive_body k size id i') i
unfolding receive_body
receive_body-Ran k size id i i' d read =
    elim (Bool-cases (ltb size header_size || ltb max_packet_size size)) [
      | inl bad ↦ rw (receive_body, bad) (_, _, _, refl, inl refl)
      | inr good ↦
          let (body, i'', body_read, less) = read_body-returns k (size - header_size) i' d in
          elim (Option-cases body) [
            | inl e ↦ rw (receive_body, good, body_read, e) (_, _, _, refl, inl refl)
            | inr (b, e) ↦
                rw (receive_body, good, body_read, e)
                  (_, _, _, refl, inr (omega (arith, read, less)))
          ]
    ]

recv_round-Ran : (k : Winsock) (i : Incoming) → Documented k → Ran (recv_round k i) i
unfolding recv_round
recv_round-Ran k i d =
    let (got, i', m, returns, _, came, left, outcome) = recv_all-Filled k header_size i d in
    elim outcome [
      | inl (fails, _, _) ↦ rw (recv_round, returns, fails) (_, _, _, refl, inl refl)
      | inr (fills, all) ↦
          let header = take m i.coming in
          let read : length i'.coming + header_size ≤ length i.coming =
            rw left (omega (arith, came, all, length-drop m i.coming)) in
          rw (recv_round, returns, fills)
            (receive_body-Ran k (read_u16_le header 0) (read_u16_le header 2) i i' d read)
    ]

recv_thread-within :
    (k : Winsock) (alive : ℕ → Bool) (fuel n : ℕ) (i : Incoming)
    → Documented k
    → length i.coming < fuel
    → (shown : List Shown) × (i' : Incoming) × (recv_thread k alive fuel n i ≡ some (shown, i'))
unfolding recv_thread
recv_thread-within k alive zero n i d enough = absurd (omega arith)
recv_thread-within k alive (suc fuel) n i d enough = elim (Bool-cases (alive n)) [
  | inr e ↦ rw (recv_thread, e) ([], i, refl)
  | inl e ↦
      let (shown, on, i', ran, outcome) = recv_round-Ran k i d in
      elim (Bool-cases on) [
        | inr stops ↦ rw (recv_thread, e, ran, stops) (shown ∷ [], i', refl)
        | inl goes ↦
            let fewer : length i'.coming < fuel = elim outcome [
              | inl x ↦ absurd (cc)
              | inr less ↦ omega (arith, less, enough)
            ] in
            let (later, i'', rest) = recv_thread-within k alive fuel (suc n) i' d fewer in
            rw (recv_thread, e, ran, goes, rest) (shown ∷ later, i'', refl)
      ]
]

-- `RecvThread` ends: whatever bytes come, whatever `recv` answers within its documentation and whenever
-- `main` clears `running`, the thread returns after at most one round more than bytes came.
pub recv_thread-returns :
    (k : Winsock) (alive : ℕ → Bool) (i : Incoming)
    → Documented k
    → (shown : List Shown) × (i' : Incoming) × (recv_thread k alive (suc (length i.coming)) 0 i
        ≡ some (shown, i'))
recv_thread-returns k alive i d =
    recv_thread-within k alive (suc (length i.coming)) 0 i d (omega arith)
