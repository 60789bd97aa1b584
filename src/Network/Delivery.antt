-- ===== src/Network/Delivery.antt =====
-- What the client's `RecvThread` shows of all that the server's threads sent to its session.
pub mod Chatting
use iocp_game_chat_server.Prelude.{
  ℕ, suc, ◌≡◌, ◌⊎◌, inl, inr, refl, ap, subst, ◌∙◌, true, some, Bool-cases, List, [], ◌∷◌, ◌++◌,
  arith, ◌==◌, ==→eq, ==→ne, ne→==, if◌then◌else◌, map, length,
}
use iocp_game_chat_server.State.{running}
use iocp_game_chat_server.Session.Sending.{AllFramed}
use iocp_game_chat_server.Receive.Chunks.{joined}
use iocp_game_chat_server.Client.Sockets.{Winsock, Documented, Healthy, Incoming}
use iocp_game_chat_server.Client.Listening.{Shown, server_shutdown, recv_thread}
use iocp_game_chat_server.Client.Listening.Frames.{
  AllWhole, shown_packets, handled, handled-shutdown, recv_thread-packets,
}
use iocp_game_chat_server.Network.{Net, shutdown}
use iocp_game_chat_server.Network.Steps.{Steps, step, shuts, done}
use iocp_game_chat_server.Network.Framing.{Steps-Framed}
use iocp_game_chat_server.Network.Registry.Entries.{NotIn, Once}
use iocp_game_chat_server.Network.Farewell.{AllOpen, farewell, farewells, sent-shutdown}

-- The packets that reached WSASend on the socket of a session, in order.
abbrev pub to_session : ℕ → List (ℕ × List ℕ) → List (List ℕ)
to_session s [] = []
to_session s ((r, bytes) ∷ sent) =
    let rest = to_session s sent in if r == s then bytes ∷ rest else rest

pub to_session-append :
    (s : ℕ) (before after : List (ℕ × List ℕ))
    → to_session s (before ++ after) ≡ to_session s before ++ to_session s after
to_session-append s [] after = refl
to_session-append s ((r, bytes) ∷ before) after = elim (Bool-cases (r == s)) [
  | inl mine ↦ rw mine (ap (◌∷◌ bytes) (to_session-append s before after))
  | inr other ↦ rw other (to_session-append s before after)
]

pub AllWhole-to_session :
    (s : ℕ) (sent : List (ℕ × List ℕ)) → AllFramed sent → AllWhole (to_session s sent)
AllWhole-to_session s [] all = tt
AllWhole-to_session s ((r, bytes) ∷ sent) (one, all) = elim (Bool-cases (r == s)) [
  | inl mine ↦ rw mine (one, AllWhole-to_session s sent all)
  | inr other ↦ rw other (AllWhole-to_session s sent all)
]

-- Whatever the threads of the server do, in whatever order, from a state in which only whole packets had
-- been sent, the client's `RecvThread` understands it: over a connection without errors that carries what
-- reached WSASend for a session, and then closes, it returns, and shows packet by packet what its
-- `switch` makes of each, up to a shutdown, a kick or the end; it never meets a size that it refuses
-- or a packet cut short. `running` stays set.
pub recv_thread-Steps :
    (n n' : Net) (s : ℕ) (k : Winsock) (i : Incoming)
    → Steps n n'
    → AllFramed n.world.sent
    → Documented k
    → Healthy k
    → i.coming ≡ joined (to_session s n'.world.sent)
    → (i' : Incoming) × (recv_thread k (λ _. true) (suc (length i.coming)) 0 i
        ≡ some (shown_packets (to_session s n'.world.sent), i'))
recv_thread-Steps n n' s k i run framed d h e =
    let all = AllWhole-to_session s n'.world.sent (Steps-Framed n n' run framed) in
    recv_thread-packets k (to_session s n'.world.sent) i d h all e

-- The session is in an entry.
abbrev pub Listed : ℕ → List (ℕ × ℕ) → Type 0
Listed s [] = ⊥
Listed s ((k, v) ∷ m) = (v ≡ s) ⊎ Listed s m

to_session-farewells_none : (s : ℕ) (m : List (ℕ × ℕ)) → NotIn s m → to_session s (farewells m) ≡ []
to_session-farewells_none s [] out = refl
to_session-farewells_none s ((k, v) ∷ m) (other, out) =
    rw (ne→== v s other) (to_session-farewells_none s m out)

to_session-farewells :
    (s : ℕ) (m : List (ℕ × ℕ)) → Once m → Listed s m → to_session s (farewells m) ≡ farewell ∷ []
to_session-farewells s [] once here = absurd here
to_session-farewells s ((k, v) ∷ m) (out, once) here = elim (Bool-cases (v == s)) [
  | inl mine ↦
      let same = ==→eq v s mine in
      rw mine (ap (◌∷◌ farewell) (to_session-farewells_none s m (subst (λ x. NotIn x m) same out)))
  | inr other ↦ elim here [
    | inl same ↦ absurd (==→ne v s other same)
    | inr there ↦ rw other (to_session-farewells s m once there)
  ]
]

-- None of these packets ends the client's loop.
abbrev pub AllGoOn : List (List ℕ) → Type 0
AllGoOn [] = Unit {0}
AllGoOn (bytes ∷ rest) = ((handled bytes).1 ≡ true) × AllGoOn rest

pub shown_packets-append :
    (packets later : List (List ℕ))
    → AllGoOn packets
    → shown_packets (packets ++ later)
      ≡ map (λ bytes. (handled bytes).0) packets ++ shown_packets later
shown_packets-append [] later all = refl
shown_packets-append (bytes ∷ rest) later (one, all) =
    rw (one, shown_packets-append rest later all) refl

shown_packets-farewell : shown_packets (farewell ∷ []) ≡ server_shutdown ∷ []
shown_packets-farewell = rw handled-shutdown refl

-- A shutdown is heard: once a running server has been shut down, the client of any session in the registry
-- shows what its `switch` makes of the packets that were sent before, then the notice of the
-- shutdown, and ends its loop there. The registry lists no session twice and none that is closed, the
-- kernel takes every operation, only whole packets had been sent, none of those to the session ended
-- the client's loop, and the connection carries what reached WSASend for the session, without errors.
pub recv_thread-shutdown :
    (n : Net) (s : ℕ) (k : Winsock) (i : Incoming)
    → n.world.server_state ≡ running
    → ((c : ℕ) → n.world.accepts c ≡ true)
    → Once n.registry
    → AllOpen n.world.sessions n.registry
    → Listed s n.registry
    → AllFramed n.world.sent
    → AllGoOn (to_session s n.world.sent)
    → Documented k
    → Healthy k
    → i.coming ≡ joined (to_session s (shutdown n).world.sent)
    → (i' : Incoming) × (recv_thread k (λ _. true) (suc (length i.coming)) 0 i
        ≡ some (
          map (λ bytes. (handled bytes).0) (to_session s n.world.sent) ++ (server_shutdown ∷ []),
          i',
        ))
recv_thread-shutdown n s k i up accepting once not_closed here framed on d h e =
    let run : Steps n (shutdown n) =
      step n (shutdown n) (shutdown n) (shuts n) (done (shutdown n)) in
    let (i', heard) = recv_thread-Steps n (shutdown n) s k i run framed d h e in
    let told : to_session s (shutdown n).world.sent ≡ to_session s n.world.sent ++ (farewell ∷ []) =
      ap (to_session s) (sent-shutdown n up accepting once not_closed).0
      ∙ to_session-append s n.world.sent (farewells n.registry)
      ∙ ap (λ x. to_session s n.world.sent ++ x) (to_session-farewells s n.registry once here) in
    let before = to_session s n.world.sent in
    let shown =
      ap shown_packets told
      ∙ shown_packets-append before (farewell ∷ []) on
      ∙ ap (◌++◌ (map (λ bytes. (handled bytes).0) before)) shown_packets-farewell in
    (i', heard ∙ ap (λ x. some (x, i')) shown)
