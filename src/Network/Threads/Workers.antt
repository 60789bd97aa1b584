-- ===== src/Network/Threads/Workers.antt =====
-- The workers are all told to end, and all waited for.
use iocp_game_chat_server.Prelude.{
  ℕ, zero, suc, ◌+◌, ◌-◌, ◌≤◌, ◌<◌, ◌≡◌, ◌⊎◌, refl, sym, ap, ◌∙◌, Bool, false, Option, some, inl,
  inr, List, [], ◌∷◌, ◌++◌, arith, ltb, ltb→lt, ltb→ge, Bool-cases, if◌then◌else◌, length, take,
  drop, length-take, length-drop, drop-drop, take-append-drop, drop_all, append_assoc,
}
use iocp_game_chat_server.Network.Threads.{maximum_wait_objects, wait_from, stop_worker_threads}

-- Groups as WaitForMultipleObjects takes them.
abbrev pub AllSmall : List (List ℕ) → Type 0
AllSmall [] = Unit {0}
AllSmall (g ∷ gs) = (0 < length g) × (length g ≤ maximum_wait_objects) × AllSmall gs

abbrev pub flatten : List (List ℕ) → List ℕ
flatten [] = []
flatten (g ∷ gs) = g ++ flatten gs

-- The groups are the threads from some index on, one after another, up to those left; where some are left, a
-- wait failed.
abbrev Waited : (List ℕ → Bool) → Option (List (List ℕ)) → List ℕ → Type 0
Waited wait r threads =
    (groups : List (List ℕ)) × (left : List ℕ) × (r ≡ some groups)
    × (threads ≡ flatten groups ++ left)
    × AllSmall groups
    × ((left ≡ []) ⊎ ((group : List ℕ) × (wait group ≡ false)))

abbrev chunk_of : ℕ → ℕ
chunk_of remaining = if ltb maximum_wait_objects remaining then maximum_wait_objects else remaining

chunk_within :
    (remaining : ℕ)
    → 0 < remaining
    → (0 < chunk_of remaining)
      × (chunk_of remaining ≤ maximum_wait_objects)
      × (chunk_of remaining ≤ remaining)
chunk_within remaining h = (ground (arith, h), ground (arith, h), ground (arith, h))

wait_from-Waited :
    (wait : List ℕ → Bool) (fuel index : ℕ) (threads : List ℕ)
    → length threads - index < fuel
    → Waited wait (wait_from wait fuel index threads) (drop index threads)
unfolding wait_from
wait_from-Waited wait zero index threads enough = absurd (omega arith)
wait_from-Waited wait (suc fuel) index threads enough =
    let remaining = length threads - index in
    let chunk = chunk_of remaining in
    let group = take chunk (drop index threads) in
    elim (Bool-cases (ltb index (length threads))) [
      | inr end ↦
          let nothing_left = drop_all index threads (ltb→ge index (length threads) end) in
          rw (wait_from, end) ([], [], refl, nothing_left, tt, inl refl)
      | inl more ↦
          let some_left : 0 < remaining = omega (arith, ltb→lt index (length threads) more) in
          let (positive, small, within) = chunk_within remaining some_left in
          let long : length group ≡ chunk =
            omega
              (arith, within, length-take chunk (drop index threads), length-drop index threads) in
          elim (Bool-cases (wait group)) [
            | inr fails ↦
                rw (wait_from, more, fails)
                  ([], drop index threads, refl, refl, tt, inr (group, fails))
            | inl waits ↦
                let (groups, left, e, whole, all, outcome) =
                  wait_from-Waited wait fuel (index + chunk) threads
                    (omega (arith, positive, within, enough)) in
                let whole' : drop index threads ≡ group ++ (flatten groups ++ left) =
                  sym (take-append-drop chunk (drop index threads))
                  ∙ ap (◌++◌ group) (drop-drop index chunk threads ∙ whole) in
                rw (wait_from, more, waits, e)
                  (
                    group ∷ groups,
                    left,
                    refl,
                    whole' ∙ sym (append_assoc group (flatten groups) left),
                    (omega (arith, positive, long), omega (arith, small, long), all),
                    outcome,
                  )
          ]
    ]

-- Stopping the workers comes to an end, whatever the waits answer: as many exit notices are posted as there
-- are workers, and the groups of 1 to 64 handles waited for are, one after another, all the workers,
-- each once, or those before a wait that failed.
pub stop_worker_threads_lem :
    (wait : List ℕ → Bool) (threads : List ℕ)
    → (groups : List (List ℕ)) × (left : List ℕ) × (stop_worker_threads wait threads
        ≡ some (length threads, groups))
      × (threads ≡ flatten groups ++ left)
      × AllSmall groups
      × ((left ≡ []) ⊎ ((group : List ℕ) × (wait group ≡ false)))
unfolding stop_worker_threads
stop_worker_threads_lem wait [] = ([], [], refl, refl, tt, inl refl)
stop_worker_threads_lem wait (handle ∷ handles) =
    let threads = handle ∷ handles in
    let (groups, left, e, whole, all, outcome) =
      wait_from-Waited wait (suc (length threads)) 0 threads (omega arith) in
    (groups, left, rw (stop_worker_threads, e) refl, whole, all, outcome)
