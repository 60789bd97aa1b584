-- ===== src/Game/Maps.antt =====
-- The maps of the game as association lists: every value is an address that has been given out.
use mathlib.Core.List.{Mem, Perm, mem-cons, not-mem-nil}
use mathlib.Core.List.Perm
use mathlib.Core.Logic.Or
use native.Mathlib.Bridge.{le_prop}
use iocp_game_chat_server.Prelude.{
  ℕ, ◌+◌, ◌≤◌, ◌<◌, ◌≡◌, refl, some, inl, inr, List, [], ◌∷◌, ◌++◌, arith, Option-cases,
}
use iocp_game_chat_server.Server.{find, emplace, erase}

-- Every value of a map is an address that has been given out.
abbrev pub ValuesBelow : ℕ → List (ℕ × ℕ) → Type 0
ValuesBelow n [] = Unit {0}
ValuesBelow n ((k, v) ∷ m) = (v < n) × ValuesBelow n m

pub find-ValuesBelow :
    (k n : ℕ) (m : List (ℕ × ℕ)) (v : ℕ) → ValuesBelow n m → find k m ≡ some v → v < n
find-ValuesBelow k n [] v h e = absurd (cc)
find-ValuesBelow k n ((j, u) ∷ m) v h e = ground (arith, find-ValuesBelow k n m v h.1)

pub ValuesBelow-mono : (m n : ℕ) (es : List (ℕ × ℕ)) → m ≤ n → ValuesBelow m es → ValuesBelow n es
ValuesBelow-mono m n [] h b = tt
ValuesBelow-mono m n ((k, v) ∷ es) h b = (omega arith, ValuesBelow-mono m n es h b.1)

pub emplace-ValuesBelow :
    (k n : ℕ) (es : List (ℕ × ℕ)) → ValuesBelow n es → ValuesBelow (n + 1) (emplace k n es).0
emplace-ValuesBelow k n es b = elim (Option-cases (find k es)) [
  | inl e ↦ rw (e, emplace) (appended es b)
  | inr (v, e) ↦ rw (e, emplace) (ValuesBelow-mono n (n + 1) es (omega arith) b)
]
  where
    appended : (fs : List (ℕ × ℕ)) → ValuesBelow n fs → ValuesBelow (n + 1) (fs ++ ((k, n) ∷ []))
    appended [] c = (omega arith, tt)
    appended ((j, v) ∷ fs) c = (omega arith, appended fs c.1)

pub erase-ValuesBelow :
    (k n : ℕ) (es : List (ℕ × ℕ)) → ValuesBelow n es → ValuesBelow n (erase k es)
erase-ValuesBelow k n [] b = tt
erase-ValuesBelow k n ((j, v) ∷ es) b = ground (arith, erase-ValuesBelow k n es b.1)

-- The order of iteration does not matter here.
value-lt : (n : ℕ) (es : List (ℕ × ℕ)) (e : ℕ × ℕ) → ValuesBelow n es → Mem e es → e.1 < n
value-lt n [] e b m = absurd (not-mem-nil m)
value-lt n ((k, v) ∷ es) e b m =
    Or.elim le_prop (mem-cons.0 m) (λ same. rw same b.0) (value-lt n es e b.1)

Mem-ValuesBelow :
    (n : ℕ) (es : List (ℕ × ℕ)) → ((e : ℕ × ℕ) → Mem e es → e.1 < n) → ValuesBelow n es
Mem-ValuesBelow n [] all = tt
Mem-ValuesBelow n ((k, v) ∷ es) all = (
  all (k, v) (mem-cons.1 (Or.inl refl)),
  Mem-ValuesBelow n es (λ e m. all e (mem-cons.1 (Or.inr m))),
)

pub ValuesBelow-Perm :
    (n : ℕ) (es fs : List (ℕ × ℕ)) → Perm es fs → ValuesBelow n fs → ValuesBelow n es
ValuesBelow-Perm n es fs p b =
    Mem-ValuesBelow n es (λ e m. value-lt n fs e b ((Perm.mem_iff p).0 m))
