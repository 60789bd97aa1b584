-- ===== src/Client/Sockets/Exact.antt =====
-- `SendAll` and `RecvAll` on a connection without errors.
use iocp_game_chat_server.Prelude.{
  ℕ, ◌≤◌, ◌<◌, ◌≡◌, ap, ◌∙◌, true, none, some, inl, inr, List, ◌++◌, arith, length, take, drop,
  take_all,
}
use iocp_game_chat_server.Client.Sockets.{
  Winsock, Documented, Healthy, Outgoing, Incoming, send_all, recv_all,
}
use iocp_game_chat_server.Client.Sockets.Loops.{Refuses, Dries, send_all-Handed, recv_all-Filled}

Healthy-Refuses : (k : Winsock) → Healthy k → Refuses k → ⊥
Healthy-Refuses k h (n, len, room, e) =
    let (m, good) = h.takes_some n len room in elim e [ inl x ↦ absurd (cc) | inr x ↦ absurd (cc) ]

Healthy-Dries : (k : Winsock) (came : ℕ) → Healthy k → 0 < came → Dries k came → ⊥
Healthy-Dries k came h some_came (n, len, room, e) =
    let (m, good) = h.gives_some n len came room some_came in
    elim e [ inl x ↦ absurd (cc) | inr x ↦ absurd (cc) ]

pub send_all_lem :
    (k : Winsock) (bytes : List ℕ) (o : Outgoing)
    → Documented k
    → Healthy k
    → (o' : Outgoing) × (send_all k bytes o ≡ some (true, o')) × (o'.sent ≡ o.sent ++ bytes)
send_all_lem k bytes o d h =
    let (done, o', m, e, small, sent, outcome) = send_all-Handed k bytes o d in
    elim outcome [
      | inl (whole, all) ↦ (
        o',
        e ∙ ap (λ b. some (b, o')) whole,
        sent ∙ ap (◌++◌ o.sent) (take_all m bytes (omega (arith, all))),
      )
      | inr (stopped, part, refuses) ↦ absurd (Healthy-Refuses k h refuses)
    ]

pub recv_all_enough :
    (k : Winsock) (len : ℕ) (i : Incoming)
    → Documented k
    → Healthy k
    → len ≤ length i.coming
    → (i' : Incoming) × (recv_all k len i ≡ some (some (take len i.coming), i'))
      × (i'.coming ≡ drop len i.coming)
recv_all_enough k len i d h enough =
    let (got, i', m, e, small, here, left, outcome) = recv_all-Filled k len i d in
    elim outcome [
      | inl (fails, less, dries) ↦ absurd (Healthy-Dries k _ h (omega arith) dries)
      | inr (fills, all) ↦ (
        i',
        e ∙ ap (λ b. some (b, i')) (fills ∙ ap (λ n. some (take n i.coming)) all),
        left ∙ ap (λ n. drop n i.coming) all,
      )
    ]

pub recv_all_short :
    (k : Winsock) (len : ℕ) (i : Incoming)
    → Documented k
    → length i.coming < len
    → (i' : Incoming) × (recv_all k len i ≡ some (none, i'))
recv_all_short k len i d short =
    let (got, i', m, e, small, here, left, outcome) = recv_all-Filled k len i d in
    elim outcome [
      | inl (fails, less, dries) ↦ (i', e ∙ ap (λ b. some (b, i')) fails)
      | inr (fills, all) ↦ absurd (omega arith)
    ]
