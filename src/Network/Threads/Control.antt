-- ===== src/Network/Threads/Control.antt =====
-- A second control event changes nothing.
use iocp_game_chat_server.Prelude.{ℕ, ◌≡◌, ◌≢◌, Bool, true, false, some, List}
use iocp_game_chat_server.State.{running}
use iocp_game_chat_server.Network.Threads.{Process, ControlEvent, other_event, shut_down}

-- The events on which the server stops.
abbrev pub is_stop : ControlEvent → Bool
is_stop other_event = false
is_stop _ = true

-- `Shutdown` comes to an end, and a second call then does nothing.
abbrev ShutOnce : (List ℕ → Bool) → Process → Type 0
ShutOnce wait p =
    (p' : Process) × (shut_down wait p ≡ some p')
    × (shut_down wait p' ≡ some p')
    × (p'.listener ≡ p.listener)
    × (p'.net.world.server_state ≢ running)
