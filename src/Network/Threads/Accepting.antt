-- ===== src/Network/Threads/Accepting.antt =====
-- The accept thread ends, and all it does are steps of the server.
use iocp_game_chat_server.Prelude.{ℕ, ◌≤◌, ◌≡◌, true}
use iocp_game_chat_server.Network.{Net}
use iocp_game_chat_server.Network.Steps.{Steps}

-- No session lies where `new` puts those of the rounds from the k-th on.
abbrev pub Free : (ℕ → ℕ) → ℕ → Net → Type 0
Free memory k n = (j : ℕ) → k ≤ j → (n.world.sessions (memory j)).destroying ≡ true
