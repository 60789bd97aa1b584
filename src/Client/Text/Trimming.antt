-- ===== src/Client/Text/Trimming.antt =====
-- What `Trim` leaves of a text.
use iocp_game_chat_server.Prelude.{
  ℕ, zero, suc, ◌+◌, ◌-◌, ◌≤◌, ◌<◌, ◌≡◌, ◌⊎◌, refl, sym, ap, ◌∙◌, true, false, none, some, inl, inr,
  List, [], ◌∷◌, ◌++◌, arith, Bool-cases, Option-cases, length, get_or, take, drop,
  take-append-drop, drop-drop, length-take, length-drop, ltb, ltb→lt, ltb→ge, append-nil,
}
use iocp_game_chat_server.Client.Text.{is_blank, first_not_blank, last_not_blank, trim}

abbrev pub AllBlank : List ℕ → Type 0
AllBlank [] = Unit {0}
AllBlank (c ∷ s) = (is_blank c ≡ true) × AllBlank s

-- A text that neither starts nor ends with a blank.
abbrev pub Clean : List ℕ → Type 0
Clean s =
    (s ≡ []) ⊎ ((is_blank (get_or s 0 0) ≡ false) × (is_blank (get_or s (length s - 1) 0) ≡ false))

first_none : (s : List ℕ) → first_not_blank s ≡ none → AllBlank s
unfolding first_not_blank
first_none [] e = tt
first_none (c ∷ s) e = ground (arith, e, first_none s)

first_some :
    (s : List ℕ) (b : ℕ)
    → first_not_blank s ≡ some b
    → AllBlank (take b s) × (b < length s) × (is_blank (get_or s b 0) ≡ false)
unfolding first_not_blank
first_some [] b e = absurd (cc)
first_some (c ∷ s) zero e = ground (arith, e)
first_some (c ∷ s) (suc b) e = ground (arith, e, first_some s b)

last_none : (s : List ℕ) → last_not_blank s ≡ none → AllBlank s
unfolding last_not_blank
last_none [] e = tt
last_none (c ∷ s) e = ground (arith, e, last_none s)

last_some :
    (s : List ℕ) (b : ℕ)
    → last_not_blank s ≡ some b
    → AllBlank (drop (suc b) s) × (b < length s) × (is_blank (get_or s b 0) ≡ false)
unfolding last_not_blank
last_some [] b e = absurd (cc)
last_some (c ∷ s) zero e = ground (arith, e, last_none s)
last_some (c ∷ s) (suc b) e = ground (arith, e, last_some s b)

get_or-drop : (n i : ℕ) (s : List ℕ) → get_or (drop n s) i 0 ≡ get_or s (n + i) 0
get_or-drop zero i s = let e : 0 + i ≡ i = omega arith in rw e
get_or-drop (suc n) i [] = refl
get_or-drop (suc n) i (c ∷ s) =
    let e : suc n + i ≡ suc (n + i) = omega arith in rw e (get_or-drop n i s)

get_or-take : (n i : ℕ) (s : List ℕ) → i < n → get_or (take n s) i 0 ≡ get_or s i 0
get_or-take zero i s h = absurd (omega arith)
get_or-take (suc n) i [] h = refl
get_or-take (suc n) zero (c ∷ s) h = refl
get_or-take (suc n) (suc i) (c ∷ s) h = get_or-take n i s (omega arith)

AllBlank-get_or : (s : List ℕ) (i : ℕ) → AllBlank s → i < length s → is_blank (get_or s i 0) ≡ true
AllBlank-get_or [] i a h = absurd (omega arith)
AllBlank-get_or (c ∷ s) zero a h = a.0
AllBlank-get_or (c ∷ s) (suc i) a h = AllBlank-get_or s i a.1 (omega arith)

-- The first character that is no blank stands before the last one, or is it.
first-le-last :
    (s : List ℕ) (b e : ℕ) → first_not_blank s ≡ some b → last_not_blank s ≡ some e → b ≤ e
first-le-last s b e p q = elim (Bool-cases (ltb e b)) [
  | inr k ↦ ltb→ge e b k
  | inl k ↦
      let before = ltb→lt e b k in
      let (_, inside, no_blank) = first_some s b p in
      let (blanks, _, _) = last_some s e q in
      let there : b ≡ suc e + (b - suc e) = omega (arith, before) in
      let blank : is_blank (get_or (drop (suc e) s) (b - suc e) 0) ≡ true =
        AllBlank-get_or (drop (suc e) s) (b - suc e) blanks
          (omega (arith, inside, before, length-drop (suc e) s)) in
      let same : get_or (drop (suc e) s) (b - suc e) 0 ≡ get_or s b 0 =
        get_or-drop (suc e) (b - suc e) s ∙ ap (λ i. get_or s i 0) (sym there) in
      absurd (cc)
]

-- The text from `b` to `e`, both without blanks, is clean.
Clean-middle :
    (s : List ℕ) (b e : ℕ)
    → b ≤ e
    → e < length s
    → is_blank (get_or s b 0) ≡ false
    → is_blank (get_or s e 0) ≡ false
    → Clean (take (e - b + 1) (drop b s))
Clean-middle s b e order inside p q =
    let long : length (take (e - b + 1) (drop b s)) - 1 ≡ e - b =
      omega (arith, order, inside, length-take (e - b + 1) (drop b s), length-drop b s) in
    let at =
      λ (i : ℕ) (h : i < e - b + 1). get_or-take (e - b + 1) i (drop b s) h ∙ get_or-drop b i s in
    let zero_e : b + 0 ≡ b = omega arith in
    let end_e : b + (e - b) ≡ e = omega (arith, order) in
    inr (rw (at 0 (omega arith), zero_e) p, rw (long, at (e - b) (omega arith), end_e) q)

-- `Trim` cuts blanks off both ends and nothing else: the text is what is left with only blanks before
-- and behind it, and what is left is empty or neither starts nor ends with a blank.
pub trim_lem :
    (s : List ℕ)
    → (before : List ℕ) × (after : List ℕ) × (s ≡ before ++ (trim s ++ after))
      × AllBlank before
      × AllBlank after
      × Clean (trim s)
unfolding trim
trim_lem s = elim (Option-cases (first_not_blank s)) [
  | inl none_found ↦
      let t : trim s ≡ [] = rw (trim, none_found) in
      rw t (s, [], sym (append-nil s), first_none s none_found, tt, inl refl)
  | inr (b, p) ↦ elim (Option-cases (last_not_blank s)) [
    | inl q ↦
        let (_, inside, no_blank) = first_some s b p in
        let blank = AllBlank-get_or s b (last_none s q) inside in absurd (cc)
    | inr (e, q) ↦
        let order = first-le-last s b e p q in
        let (blanks, _, begins) = first_some s b p in
        let (blanks', inside, ends) = last_some s e q in
        let behind : drop (e - b + 1) (drop b s) ≡ drop (suc e) s =
          let at_end : b + (e - b + 1) ≡ suc e = omega (arith, order) in
          rw (sym at_end) (drop-drop b (e - b + 1) s) in
        let whole : s ≡ take b s ++ (take (e - b + 1) (drop b s) ++ drop (suc e) s) =
          rw (sym behind, take-append-drop (e - b + 1) (drop b s), take-append-drop b s) in
        let t : trim s ≡ take (e - b + 1) (drop b s) = rw (trim, p, q) in
        rw t (
          take b s,
          drop (suc e) s,
          whole,
          blanks,
          blanks',
          Clean-middle s b e order inside begins ends,
        )
  ]
]
