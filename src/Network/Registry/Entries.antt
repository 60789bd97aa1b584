-- ===== src/Network/Registry/Entries.antt =====
-- The entries of the registry, through insertion and removal.
use iocp_game_chat_server.Prelude.{
  ℕ, ◌≡◌, ◌≢◌, inl, inr, sym, subst, ◌∙◌, true, false, List, [], ◌∷◌, arith, ◌==◌, ==→eq, ==→ne,
  Bool-cases,
}
use iocp_game_chat_server.State.{World}
use iocp_game_chat_server.Network.{insert, remove}
use iocp_game_chat_server.Network.Registry.Marks.{SameMarks}

-- The session is in no entry.
abbrev pub NotIn : ℕ → List (ℕ × ℕ) → Type 0
NotIn s [] = Unit {0}
NotIn s ((k, v) ∷ m) = (v ≢ s) × NotIn s m

-- Each session is in one entry at most.
abbrev pub Once : List (ℕ × ℕ) → Type 0
Once [] = Unit {0}
Once ((k, v) ∷ m) = NotIn v m × Once m

-- No session of an entry is marked for deletion.
abbrev pub AllLive : World → List (ℕ × ℕ) → Type 0
AllLive w [] = Unit {0}
AllLive w ((k, v) ∷ m) = ((w.sessions v).destroying ≡ false) × AllLive w m

pub NotIn-insert : (y sock s : ℕ) (m : List (ℕ × ℕ)) → s ≢ y → NotIn y m → NotIn y (insert sock s m)
unfolding insert
NotIn-insert y sock s [] other h = (other, tt)
NotIn-insert y sock s ((k, v) ∷ m) other (one, h) =
    let rest = NotIn-insert y sock s m other h in ground (arith, other, one, h, rest)

pub Once-insert : (sock s : ℕ) (m : List (ℕ × ℕ)) → NotIn s m → Once m → Once (insert sock s m)
unfolding insert
Once-insert sock s [] out h = (tt, tt)
Once-insert sock s ((k, v) ∷ m) (other, out) (one, h) =
    let rest = Once-insert sock s m out h in
    let apart = NotIn-insert v sock s m (λ e. other (sym e)) one in
    ground (arith, other, out, one, h, rest, apart)

pub AllLive-insert :
    (w : World) (sock s : ℕ) (m : List (ℕ × ℕ))
    → (w.sessions s).destroying ≡ false
    → AllLive w m
    → AllLive w (insert sock s m)
unfolding insert
AllLive-insert w sock s [] live h = (live, tt)
AllLive-insert w sock s ((k, v) ∷ m) live (one, h) =
    let rest = AllLive-insert w sock s m live h in ground (arith, live, one, h, rest)

pub NotIn-remove : (y s : ℕ) (m : List (ℕ × ℕ)) → NotIn y m → NotIn y (remove s m)
unfolding remove
NotIn-remove y s [] h = tt
NotIn-remove y s ((k, v) ∷ m) (one, h) =
    let rest = NotIn-remove y s m h in ground (arith, one, h, rest)

pub Once-remove : (s : ℕ) (m : List (ℕ × ℕ)) → Once m → Once (remove s m)
unfolding remove
Once-remove s [] h = tt
Once-remove s ((k, v) ∷ m) (one, h) =
    let rest = Once-remove s m h in
    let apart = NotIn-remove v s m one in ground (arith, one, h, rest, apart)

pub AllLive-remove : (w : World) (s : ℕ) (m : List (ℕ × ℕ)) → AllLive w m → AllLive w (remove s m)
unfolding remove
AllLive-remove w s [] h = tt
AllLive-remove w s ((k, v) ∷ m) (one, h) =
    let rest = AllLive-remove w s m h in ground (arith, one, h, rest)

pub NotIn-removed : (s : ℕ) (m : List (ℕ × ℕ)) → Once m → NotIn s (remove s m)
unfolding remove
NotIn-removed s [] h = tt
NotIn-removed s ((k, v) ∷ m) (one, h) = elim (Bool-cases (v == s)) [
  | inl e ↦ rw (remove, e) (subst (λ x. NotIn x m) (==→eq v s e) one)
  | inr e ↦ rw (remove, e) (==→ne v s e, NotIn-removed s m h)
]

pub AllLive-SameMarks :
    (w₀ w : World) (m : List (ℕ × ℕ)) → SameMarks w₀ w → AllLive w₀ m → AllLive w m
AllLive-SameMarks w₀ w [] e h = tt
AllLive-SameMarks w₀ w ((k, v) ∷ m) e (one, h) = (e v ∙ one, AllLive-SameMarks w₀ w m e h)

pub AllLive-other :
    (s : ℕ) (w w' : World) (m : List (ℕ × ℕ))
    → NotIn s m
    → ((j : ℕ) → j ≢ s → (w'.sessions j).destroying ≡ (w.sessions j).destroying)
    → AllLive w m
    → AllLive w' m
AllLive-other s w w' [] out e h = tt
AllLive-other s w w' ((k, v) ∷ m) (other, out) e (one, h) =
    (e v other ∙ one, AllLive-other s w w' m out e h)

-- The session that `new` makes is in no entry.
pub NotIn-free :
    (s : ℕ) (w : World) (m : List (ℕ × ℕ))
    → (w.sessions s).destroying ≡ true
    → AllLive w m
    → NotIn s m
NotIn-free s w [] free h = tt
NotIn-free s w ((k, v) ∷ m) free (one, h) = (
  λ e.
      let live : (w.sessions s).destroying ≡ false =
        subst (λ x. (w.sessions x).destroying ≡ false) e one in
      absurd (cc),
  NotIn-free s w m free h,
)
