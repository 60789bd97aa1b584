-- ===== src/Network/Destroy.antt =====
-- When a session's memory is freed.
use iocp_game_chat_server.Prelude.{ℕ, ◌^◌, ◌<◌, ◌≡◌, ◌⊎◌, true, false, ◌∷◌, arith}
use iocp_game_chat_server.State.{is_connected}
use iocp_game_chat_server.Session.{try_begin_destroy}
use iocp_game_chat_server.Session.Pending.{IsCounted, count}
use iocp_game_chat_server.Network.{Net, try_destroy_session, remove}

-- Where `pendingIO` counts the session's operations in flight, of which there are fewer than 2 ^ 32,
-- `TryDestroySession` either frees nothing, or the session was not connected, the game thread had let it
-- go, the kernel held no operation of it and it was not yet marked; then it is marked, its entry leaves
-- the registry, and it alone is freed.
pub try_destroy_session_lem :
    (s : ℕ) (n : Net)
    → IsCounted s n.world
    → count s n.world.in_flight < 2 ^ 32
    → let n' = try_destroy_session s n in
      ((n'.freed ≡ n.freed) × (n'.registry ≡ n.registry))
      ⊎ ((n'.freed ≡ s ∷ n.freed)
          × (is_connected (n.world.sessions s).state ≡ false)
          × ((n.world.sessions s).game_cleanup_done ≡ true)
          × (count s n.world.in_flight ≡ 0)
          × ((n.world.sessions s).destroying ≡ false)
          × ((n'.world.sessions s).destroying ≡ true)
          × (n'.registry ≡ remove s n.registry))
unfolding try_destroy_session try_begin_destroy
try_destroy_session_lem s n c small = ground (arith, c, small)
