-- ===== src/Session/Sound.antt =====
-- What holds of every session between two steps of any thread, through each operation of a session.
use iocp_game_chat_server.Prelude.{ℕ, ◌≡◌, ◌⊎◌, false, Option, none, some, List, [], arith}
use iocp_game_chat_server.State.{World, recv, send, closed}
use iocp_game_chat_server.JobQueue.{enqueue_disconnect_job}
use iocp_game_chat_server.Session.{request_close, post_send, send_packet, packet_bytes, post_recv}
use iocp_game_chat_server.Session.Lifecycle.{
  Settled, request_close-Settled, send_packet-Settled, post_recv-Settled,
}
use iocp_game_chat_server.Session.Pending.{
  IsCounted, count, count-append, request_close-IsCounted, send_packet-IsCounted,
  post_recv-IsCounted,
}

-- A session that is marked for deletion is closed, and the kernel holds no operation of it.
abbrev pub IsGone : ℕ → World → Type 0
IsGone j w = ((w.sessions j).state ≡ closed) × (count j w.in_flight ≡ 0)

pub record Sound (j : ℕ) (w : World) : Type 0 where
  pub settled : Settled (w.sessions j)
  pub counted : IsCounted j w
  pub gone : ((w.sessions j).destroying ≡ false) ⊎ IsGone j w

abbrev pub AllSound : World → Type 0
AllSound w = (j : ℕ) → Sound j w

pub request_close-AllSound : (s : ℕ) (w : World) → AllSound w → AllSound (request_close s w)
request_close-AllSound s w h j = record {
  settled = request_close-Settled s j w (h s).settled (h j).settled;
  counted = request_close-IsCounted s j w (h j).counted;
  gone = unfold request_close enqueue_disconnect_job in ground (arith, (h j).gone, (h j).settled);
}

IsGone-post_send :
    (s j : ℕ) (bytes : List ℕ) (w : World)
    → ((w.sessions j).destroying ≡ false) ⊎ IsGone j w
    → ((w.sessions s).destroying ≡ false) ⊎ IsGone s w
    → (((post_send s bytes w).sessions j).destroying ≡ false) ⊎ IsGone j (post_send s bytes w)
unfolding post_send request_close enqueue_disconnect_job
IsGone-post_send s j bytes w hj hs = ground (arith, count-append j s send w.in_flight)

IsGone-send_packet :
    (s j id size : ℕ) (o : Option (List ℕ)) (w : World)
    → ((w.sessions j).destroying ≡ false) ⊎ IsGone j w
    → ((w.sessions s).destroying ≡ false) ⊎ IsGone s w
    → (((send_packet s id o size w).sessions j).destroying ≡ false)
      ⊎ IsGone j (send_packet s id o size w)
unfolding send_packet
IsGone-send_packet s j id size none w hj hs =
    ground (arith, IsGone-post_send s j (packet_bytes id [] size) w hj hs)
IsGone-send_packet s j id size (some bytes) w hj hs =
    ground (arith, IsGone-post_send s j (packet_bytes id bytes size) w hj hs)

pub send_packet-AllSound :
    (s id size : ℕ) (body : Option (List ℕ)) (w : World)
    → AllSound w
    → AllSound (send_packet s id body size w)
send_packet-AllSound s id size body w h j = record {
  settled = send_packet-Settled s j id size body w (h s).settled (h j).settled;
  counted = send_packet-IsCounted s j id size body w (h j).counted;
  gone = IsGone-send_packet s j id size body w (h j).gone (h s).gone;
}

pub post_recv-AllSound : (s : ℕ) (w : World) → AllSound w → AllSound (post_recv s w)
post_recv-AllSound s w h j = record {
  settled = post_recv-Settled s j w (h s).settled (h j).settled;
  counted = post_recv-IsCounted s j w (h j).counted;
  gone =
      unfold post_recv request_close enqueue_disconnect_job in
      ground (arith, (h j).gone, (h s).gone, count-append j s recv w.in_flight);
}
