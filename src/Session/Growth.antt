-- ===== src/Session/Growth.antt =====
-- What a session's functions do to the job queue: they only append.
use iocp_game_chat_server.Prelude.{
  ℕ, ◌≡◌, ◌⊎◌, inl, inr, sym, ap, ◌∙◌, Bool, Option, none, some, List, [], ◌∷◌, ◌++◌, append-nil,
  append_assoc, arith,
}
use iocp_game_chat_server.State.{World, GameJob, disconnect}
use iocp_game_chat_server.JobQueue.{push, push_job, job_of, enqueue_disconnect_job}
use iocp_game_chat_server.Session.{
  request_close, post_send, send_packet, packet_bytes, post_recv, on_send_complete,
}

-- The queue is this one with more behind it.
abbrev pub Grown : List GameJob → World → Type 0
Grown js w = (extra : List GameJob) × (w.jobs ≡ js ++ extra)

pub Grown-self : (w : World) → Grown w.jobs w
Grown-self w = ([], sym (append-nil w.jobs))

pub Grown-push :
    (js : List GameJob) (job : GameJob) (w : World) → Grown js w → Grown js (push_job w job)
unfolding push
Grown-push js job w (extra, h) =
    (extra ++ (job ∷ []), ap (λ q. q ++ (job ∷ [])) h ∙ append_assoc js extra (job ∷ []))

-- One of a session's functions: nothing, or a disconnect job.
abbrev Told : ℕ → World → World → Type 0
Told s w w' = (w'.jobs ≡ w.jobs) ⊎ (w'.jobs ≡ push w.jobs (job_of disconnect (some s)))

Told-Grown : (s : ℕ) (w w' : World) (js : List GameJob) → Told s w w' → Grown js w → Grown js w'
Told-Grown s w w' js t (extra, h) = elim t [
  | inl e ↦ (extra, e ∙ h)
  | inr e ↦
      let (more, grown) = Grown-push js (job_of disconnect (some s)) w (extra, h) in
      (more, e ∙ grown)
]

request_close-Told : (s : ℕ) (w : World) → Told s w (request_close s w)
unfolding request_close enqueue_disconnect_job
request_close-Told s w = ground arith

post_send-Told : (s : ℕ) (bytes : List ℕ) (w : World) → Told s w (post_send s bytes w)
unfolding post_send request_close enqueue_disconnect_job
post_send-Told s bytes w = ground arith

post_recv-Told : (s : ℕ) (w : World) → Told s w (post_recv s w)
unfolding post_recv request_close enqueue_disconnect_job
post_recv-Told s w = ground arith

pub post_recv-Grown :
    (s : ℕ) (w : World) (js : List GameJob) → Grown js w → Grown js (post_recv s w)
post_recv-Grown s w js h = Told-Grown s w (post_recv s w) js (post_recv-Told s w) h

pub request_close-Grown :
    (s : ℕ) (w : World) (js : List GameJob) → Grown js w → Grown js (request_close s w)
request_close-Grown s w js h = Told-Grown s w (request_close s w) js (request_close-Told s w) h

send_packet-Told :
    (s id size : ℕ) (body : Option (List ℕ)) (w : World) → Told s w (send_packet s id body size w)
unfolding send_packet
send_packet-Told s id size none w = ground (arith, post_send-Told s (packet_bytes id [] size) w)
send_packet-Told s id size (some body) w =
    ground (arith, post_send-Told s (packet_bytes id body size) w)

pub send_packet-Grown :
    (s id size : ℕ) (body : Option (List ℕ)) (w : World) (js : List GameJob)
    → Grown js w
    → Grown js (send_packet s id body size w)
send_packet-Grown s id size body w js h =
    Told-Grown s w (send_packet s id body size w) js (send_packet-Told s id size body w) h

on_send_complete-Told :
    (s bytes : ℕ) (success : Bool) (w : World) → Told s w (on_send_complete s bytes success w)
unfolding on_send_complete request_close enqueue_disconnect_job
on_send_complete-Told s bytes success w = ground arith

pub on_send_complete-Grown :
    (s bytes : ℕ) (success : Bool) (w : World) (js : List GameJob)
    → Grown js w
    → Grown js (on_send_complete s bytes success w)
on_send_complete-Grown s bytes success w js h =
    Told-Grown s w (on_send_complete s bytes success w) js (on_send_complete-Told s bytes success w)
      h
