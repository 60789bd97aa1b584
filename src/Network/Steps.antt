-- ===== src/Network/Steps.antt =====
-- The threads of the server as one step relation: accepting, completions on the worker threads, rounds
-- of the game thread, and shutdown, in any order.
use iocp_game_chat_server.Prelude.{
  ℕ, ◌+◌, ◌<◌, ◌^◌, ◌≡◌, Bool, true, some, List, ◌∷◌, ◌⊎◌, inl, inr, refl, arith, ◌==◌,
  if◌then◌else◌,
}
use iocp_game_chat_server.State.{IoType, recv, send}
use iocp_game_chat_server.Session.Pending.{count}
use iocp_game_chat_server.Dispatch.{game_thread_step}
use iocp_game_chat_server.Network.{
  Net, cleanup, received, was_sent, worker_step, accept_client, shutdown,
}

-- The kernel reports one of the operations that it holds, and holds the others on.
pub data Leaves (s : ℕ) (t : IoType) : List (ℕ × IoType) → List (ℕ × IoType) → Type 0 where
  first : (ops : List (ℕ × IoType)) → Leaves s t ((s, t) ∷ ops) ops
  later :
      (op : ℕ × IoType) (ops ops' : List (ℕ × IoType))
      → Leaves s t ops ops'
      → Leaves s t (op ∷ ops) (op ∷ ops')

pub count-Leaves :
    (j s : ℕ) (t : IoType) {ops ops' : List (ℕ × IoType)}
    → Leaves s t ops ops'
    → count j ops ≡ count j ops' + (if s == j then 1 else 0)
count-Leaves j s t (first ops) = ground arith
count-Leaves j s t (later (r, u) ops ops' l) = ground (arith, count-Leaves j s t l)

abbrev pub holding : List (ℕ × IoType) → Net → Net
holding ops n = record n { world = record (n.world) { in_flight = ops } }

-- One step of some thread. `new` gives a session an address at which there is none: memory without a
-- live session has the mark of deletion. The kernel holds fewer than 2 ^ 32 operations of a session.
pub data Step : Net → Net → Type 0 where
  accepts :
      (sock s : ℕ) (n : Net)
      → (n.world.sessions s).destroying ≡ true
      → Step n (accept_client sock s n)
  receives :
      (s : ℕ) (bytes : List ℕ) (success : Bool) (ops : List (ℕ × IoType)) (n n' : Net)
      → Leaves s recv n.world.in_flight ops
      → worker_step s (received bytes success) (holding ops n) ≡ some n'
      → count s n'.world.in_flight < 2 ^ 32
      → Step n n'
  sends :
      (s bytes : ℕ) (success : Bool) (ops : List (ℕ × IoType)) (n n' : Net)
      → Leaves s send n.world.in_flight ops
      → worker_step s (was_sent bytes success) (holding ops n) ≡ some n'
      → count s n'.world.in_flight < 2 ^ 32
      → Step n n'
  cleans :
      (s : ℕ) (rest : List ℕ) (n n' : Net)
      → n.world.notices ≡ s ∷ rest
      → worker_step s cleanup (record n { world = record (n.world) { notices = rest } }) ≡ some n'
      → count s n'.world.in_flight < 2 ^ 32
      → Step n n'
  plays : (n : Net) → Step n (record n { world = game_thread_step n.world })
  shuts : (n : Net) → Step n (shutdown n)

-- Any number of steps.
pub data Steps : Net → Net → Type 0 where
  done : (n : Net) → Steps n n
  step : (n n' n'' : Net) → Step n n' → Steps n' n'' → Steps n n''

-- The rounds of the game thread among the steps.
unfoldable pub played : {n n' : Net} → Step n n' → ℕ
played (accepts _ _ _ _) = 0
played (receives _ _ _ _ _ _ _ _ _) = 0
played (sends _ _ _ _ _ _ _ _ _) = 0
played (cleans _ _ _ _ _ _ _) = 0
played (plays _) = 1
played (shuts _) = 0

unfoldable pub rounds : {n n' : Net} → Steps n n' → ℕ
unfolding played
rounds (done _) = 0
rounds (step _ _ _ one more) = played one + rounds more

pub played-cases :
    {n n' : Net} (one : Step n n')
    → (played one ≡ 0) ⊎ ((played one ≡ 1) × (n'.world ≡ game_thread_step n.world))
unfolding played
played-cases (accepts _ _ _ _) = inl refl
played-cases (receives _ _ _ _ _ _ _ _ _) = inl refl
played-cases (sends _ _ _ _ _ _ _ _ _) = inl refl
played-cases (cleans _ _ _ _ _ _ _) = inl refl
played-cases (plays n) = inr (refl, refl)
played-cases (shuts _) = inl refl
