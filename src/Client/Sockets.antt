-- ===== src/Client/Sockets.antt =====
-- client.cpp: `SendAll` and `RecvAll`, the loops around Winsock's `send` and `recv`.
pub mod Loops
pub mod Exact
use iocp_game_chat_server.Prelude.{
  ℕ, zero, suc, ◌+◌, ◌-◌, ◌≤◌, ◌<◌, ◌≡◌, Bool, true, false, Option, none, some, List, [], ◌++◌, ltb,
  length, take, drop,
}

-- Winsock is a parameter: what the n-th call answers. `send` is offered a number of bytes and says how
-- many it took; `recv` has room for a number of bytes, of which so many have come, and says how many it
-- gave, which is 0 when the peer closed the connection. SOCKET_ERROR is `none`.
pub record Winsock : Type 0 where
  pub send : ℕ → ℕ → Option ℕ
  pub recv : ℕ → ℕ → ℕ → Option ℕ

-- What Winsock documents: `send` takes at most what it is offered, `recv` gives at most what there is room
-- for and what came.
pub record Documented (k : Winsock) : Type 0 where
  pub send_within : (n len m : ℕ) → k.send n len ≡ some m → m ≤ len
  pub recv_within : (n len came m : ℕ) → k.recv n len came ≡ some m → (m ≤ len) × (m ≤ came)

-- A connection without errors: `send` takes something, `recv` gives something that came.
pub record Healthy (k : Winsock) : Type 0 where
  pub takes_some : (n len : ℕ) → 0 < len → (m : ℕ) × (k.send n len ≡ some (suc m))
  pub gives_some :
      (n len came : ℕ) → 0 < len → 0 < came → (m : ℕ) × (k.recv n len came ≡ some (suc m))

-- The bytes handed to the kernel, and the number of calls.
pub record Outgoing : Type 0 where
  pub sent : List ℕ
  pub calls : ℕ

-- The bytes that come and were not read yet, and the number of calls.
pub record Incoming : Type 0 where
  pub coming : List ℕ
  pub calls : ℕ

abbrev pub took : ℕ → List ℕ → Outgoing → Outgoing
took m bytes o = record { sent = o.sent ++ take m bytes; calls = suc o.calls }

abbrev pub gave : ℕ → Incoming → Incoming
gave m i = record { coming = drop m i.coming; calls = suc i.calls }

-- The loop of `SendAll`, from `sentTotal` on; `none` where the fuel runs out.
unfoldable pub send_all_from : Winsock → ℕ → List ℕ → ℕ → Outgoing → Option (Bool × Outgoing)
send_all_from k zero bytes sent_total o = none
send_all_from k (suc fuel) bytes sent_total o = elim (ltb sent_total (length bytes)) [
  | false ↦ some (true, o)
  | true ↦ elim (k.send o.calls (length bytes - sent_total)) [
    | none ↦ some (false, took 0 bytes o)
    | some zero ↦ some (false, took 0 bytes o)
    | some (suc m) ↦
        send_all_from k fuel bytes (sent_total + suc m) (took (suc m) (drop sent_total bytes) o)
  ]
]

-- `SendAll`
unfoldable pub send_all : Winsock → List ℕ → Outgoing → Option (Bool × Outgoing)
send_all k bytes o = send_all_from k (suc (length bytes)) bytes 0 o

-- The loop of `RecvAll`, with what the buffer holds so far.
unfoldable pub recv_all_from :
    Winsock → ℕ → ℕ → ℕ → List ℕ → Incoming → Option (Option (List ℕ) × Incoming)
recv_all_from k zero len recv_total buffer i = none
recv_all_from k (suc fuel) len recv_total buffer i = elim (ltb recv_total len) [
  | false ↦ some (some buffer, i)
  | true ↦ elim (k.recv i.calls (len - recv_total) (length i.coming)) [
    | none ↦ some (none, gave 0 i)
    | some zero ↦ some (none, gave 0 i)
    | some (suc m) ↦
        recv_all_from k fuel len (recv_total + suc m) (buffer ++ take (suc m) i.coming)
          (gave (suc m) i)
  ]
]

-- `RecvAll`: the buffer, or `none` for `false`
unfoldable pub recv_all : Winsock → ℕ → Incoming → Option (Option (List ℕ) × Incoming)
recv_all k len i = recv_all_from k (suc len) len 0 [] i
