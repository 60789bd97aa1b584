-- ===== src/Network/Stopping.antt =====
-- The game thread ends: a shutdown job moves to the front of the queue, one place for each round.
use iocp_game_chat_server.Prelude.{
  ℕ, zero, suc, ◌+◌, ◌≤◌, ◌<◌, ◌≡◌, ◌⊎◌, refl, true, false, Option, none, inl, inr, List, [], ◌∷◌,
  ◌++◌, arith, length, length-append, Bool-cases,
}
use iocp_game_chat_server.State.{World, GameJob, GameJobType, running}
use iocp_game_chat_server.JobQueue.{pop, push, job_of, enqueue_shutdown_job}
use iocp_game_chat_server.Session.Growth.{Grown, Grown-self, request_close-Grown, send_packet-Grown}
use iocp_game_chat_server.Server.{finish_cleanup}
use iocp_game_chat_server.Dispatch.{game_thread_step, run_job}
use iocp_game_chat_server.Game.Keeps.{Keeps}
use iocp_game_chat_server.Game.Keeps.Jobs.{run_job-keeps}
use iocp_game_chat_server.Network.{Net, shutdown}
use iocp_game_chat_server.Network.Steps.{Step, Steps, done, step, rounds, played-cases}
use iocp_game_chat_server.Network.Beside.{Beside, Step-Beside}

-- What the game thread's handlers do to the queue.
Grown-Keeps : (js : List GameJob) → Keeps (Grown js)
Grown-Keeps js = record {
  sends = λ s id size body w offers h. send_packet-Grown s id size body w js h;
  closes = λ s w h. request_close-Grown s w js h;
  plays = λ g w h. h;
  ticks = λ n w h. h;
  cleans = λ s w h. unfold finish_cleanup in h;
}

-- A shutdown job waits in the queue behind so many others.
abbrev Waits : ℕ → List GameJob → Type 0
Waits i [] = ⊥
Waits zero (job ∷ queue) = job.type ≡ GameJobType.shutdown
Waits (suc i) (job ∷ queue) = Waits i queue

Waits-append : (i : ℕ) (queue extra : List GameJob) → Waits i queue → Waits i (queue ++ extra)
Waits-append i [] extra h = absurd h
Waits-append zero (job ∷ queue) extra h = h
Waits-append (suc i) (job ∷ queue) extra h = Waits-append i queue extra h

Waits-last :
    (queue : List GameJob) (s : Option ℕ)
    → Waits (length queue) (queue ++ (job_of GameJobType.shutdown s ∷ []))
Waits-last [] s = refl
Waits-last (job ∷ queue) s = Waits-last queue s

-- It waits, or the game thread has ended.
abbrev Due : ℕ → World → Type 0
Due i w = (w.game.running ≡ false) ⊎ Waits i w.jobs

Beside-Due : (i : ℕ) (w₀ w : World) → Beside w₀ w → Due i w₀ → Due i w
Beside-Due i w₀ w ((game, _), (extra, grown)) due = elim due [
  | inl ended ↦ inl (rw game ended)
  | inr waits ↦ inr (rw grown (Waits-append i w₀.jobs extra waits))
]

-- A round of a thread that has ended does nothing.
ended_round : (w : World) → w.game.running ≡ false → game_thread_step w ≡ w
unfolding game_thread_step
ended_round w h = rw (game_thread_step, h) refl

-- A round takes the first job.
round_takes :
    (w : World) (job : GameJob) (queue : List GameJob)
    → w.game.running ≡ true
    → w.jobs ≡ job ∷ queue
    → game_thread_step w
      ≡ run_job job.type job.session
          (record { header = job.header; body = job.body })
          (record w { jobs = queue })
unfolding game_thread_step pop
round_takes w job queue up e = ground (arith, up, e)

Due-zero : (w : World) → Due 0 w → (game_thread_step w).game.running ≡ false
Due-zero w (inl ended) = rw (ended_round w ended) ended
Due-zero w (inr waits) = elim (Bool-cases w.game.running) [
  | inr ended ↦ rw (ended_round w ended) ended
  | inl up ↦ by_jobs w.jobs refl up waits
]
  where
    by_jobs :
        (queue : List GameJob)
        → w.jobs ≡ queue
        → w.game.running ≡ true
        → Waits 0 queue
        → (game_thread_step w).game.running ≡ false
    by_jobs [] e up waits = absurd waits
    by_jobs (job ∷ queue) e up kind =
        rw (round_takes w job queue up e, kind) (unfold run_job in refl)

Due-suc : (i : ℕ) (w : World) → Due (suc i) w → Due i (game_thread_step w)
Due-suc i w (inl ended) = inl (rw (ended_round w ended) ended)
Due-suc i w (inr waits) = elim (Bool-cases w.game.running) [
  | inr ended ↦ inl (rw (ended_round w ended) ended)
  | inl up ↦ by_jobs w.jobs refl up waits
]
  where
    by_jobs :
        (queue : List GameJob)
        → w.jobs ≡ queue
        → w.game.running ≡ true
        → Waits (suc i) queue
        → Due i (game_thread_step w)
    by_jobs [] e up waits = absurd waits
    by_jobs (job ∷ queue) e up waits =
        let w' = record w { jobs = queue } in
        let (extra, grown) =
          run_job-keeps (Grown queue) (Grown-Keeps queue) job.type job.session
            (record { header = job.header; body = job.body }) w' (Grown-self w') in
        inr (rw (round_takes w job queue up e, grown) (Waits-append i queue extra waits))

Step-ended : (n n' : Net) → Step n n' → n.world.game.running ≡ false → n'.world.game.running ≡ false
Step-ended n n' one ended = elim (played-cases one) [
  | inl quiet ↦ rw (Step-Beside n n' one quiet).0.0 ended
  | inr (_, here) ↦ rw (here, ended_round n.world ended) ended
]

Steps-ended :
    (n n' : Net) → Steps n n' → n.world.game.running ≡ false → n'.world.game.running ≡ false
Steps-ended _ _ (done n) ended = ended
Steps-ended _ _ (step n n' n'' one more) ended = Steps-ended n' n'' more (Step-ended n n' one ended)

-- Where a shutdown job waits behind so many jobs, more rounds than these end the game thread.
Steps-ends :
    (i : ℕ) (n n' : Net) (run : Steps n n')
    → Due i n.world
    → i < rounds run
    → n'.world.game.running ≡ false
unfolding rounds
Steps-ends i _ _ (done n) due enough = absurd (omega arith)
Steps-ends zero _ _ (step n n' n'' one more) due enough = elim (played-cases one) [
  | inl quiet ↦
      Steps-ends zero n' n'' more (Beside-Due 0 n.world n'.world (Step-Beside n n' one quiet) due)
        (omega (arith, enough, quiet))
  | inr (_, here) ↦ Steps-ended n' n'' more (rw here (Due-zero n.world due))
]
Steps-ends (suc i) _ _ (step n n' n'' one more) due enough = elim (played-cases one) [
  | inl quiet ↦
      Steps-ends (suc i) n' n'' more
        (Beside-Due (suc i) n.world n'.world (Step-Beside n n' one quiet) due)
        (omega (arith, enough, quiet))
  | inr (once, here) ↦
      Steps-ends i n' n'' more (rw here (Due-suc i n.world due)) (omega (arith, enough, once))
]

shutdown-queues :
    (n : Net)
    → n.world.server_state ≡ running
    → (queue : List GameJob) × ((shutdown n).world.jobs
        ≡ queue ++ (job_of GameJobType.shutdown none ∷ []))
unfolding shutdown enqueue_shutdown_job push
shutdown-queues n up = rw (shutdown, up) (_, refl)

-- The game thread ends: once the server, while it runs, has been told to shut down, the game thread has
-- left its loop after as many rounds as there were jobs then, whatever the other threads do between
-- the rounds and whatever they add to the queue.
pub Steps-stops :
    (n n' : Net) (run : Steps (shutdown n) n')
    → n.world.server_state ≡ running
    → length (shutdown n).world.jobs ≤ rounds run
    → n'.world.game.running ≡ false
Steps-stops n n' run up enough =
    let (queue, e) = shutdown-queues n up in
    let last = Waits-last queue none in
    let long = length-append queue (job_of GameJobType.shutdown none ∷ []) in
    let jobs_length : length (shutdown n).world.jobs ≡ length queue + 1 = rw e long in
    Steps-ends (length queue) (shutdown n) n' run (inr (rw e last))
      (omega (arith, enough, jobs_length))
