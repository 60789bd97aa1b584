-- ===== src/Client/Settings/Numbers.antt =====
-- `AskInt` reads a number that is typed in digits.
use iocp_game_chat_server.Prelude.{
  ℕ, zero, suc, ◌+◌, ◌-◌, ◌*◌, ◌/◌, ◌%◌, ◌^◌, ◌≤◌, ◌<◌, ◌≡◌, ◌⊎◌, refl, ap, ◌∙◌, true, false, none,
  some, inl, inr, List, [], ◌∷◌, ◌++◌, arith, ltb, leb, ◌==◌, ◌&&◌, ◌||◌, lt→ltb, ltb→lt,
  Bool-cases, length, take_all,
}
use native.Mathlib.Nat.{pow-zero, pow-suc}
use iocp_game_chat_server.Lobby.{digits}
use iocp_game_chat_server.Client.Text.{is_blank, first_not_blank, last_not_blank, trim}
use iocp_game_chat_server.Client.Settings.{
  is_digit, digits_value, starts_with_digit, signed, stoi, ask_int,
}

-- Decimal digits.
abbrev AllDigits : List ℕ → Type 0
AllDigits [] = Unit {0}
AllDigits (c ∷ s) = (48 ≤ c) × (c < 58) × AllDigits s

digits_value-digit :
    (v d : ℕ) (s : List ℕ) → d < 10 → digits_value v ((48 + d) ∷ s) ≡ digits_value (v * 10 + d) s
unfolding digits_value is_digit
digits_value-digit v d s h =
    let digit : (leb 48 (48 + d) && leb (48 + d) 57) ≡ true = ground arith in
    let off : 48 + d - 48 ≡ d = omega arith in rw (digits_value, is_digit, digit, off) refl

-- A number is the value of its digits.
digits_value-digits :
    (fuel n : ℕ) (acc : List ℕ)
    → n < 10 ^ fuel
    → digits_value 0 (digits fuel n acc) ≡ digits_value n acc
unfolding digits
digits_value-digits zero n acc h = let e : n ≡ 0 = omega (arith, h, pow-zero 10) in rw e refl
digits_value-digits (suc fuel) n acc h = elim (Bool-cases (ltb n 10)) [
  | inl e ↦
      let small : 0 * 10 + n % 10 ≡ n = omega (arith, ltb→lt n 10 e) in
      rw (digits, e)
        (digits_value-digit 0 (n % 10) acc (omega arith) ∙ ap (λ v. digits_value v acc) small)
  | inr e ↦
      let whole : n / 10 * 10 + n % 10 ≡ n = omega arith in
      let smaller : n / 10 < 10 ^ fuel = omega (arith, h, pow-suc 10 fuel) in
      rw (digits, e)
        (digits_value-digits fuel (n / 10) ((48 + n % 10) ∷ acc) smaller
          ∙ digits_value-digit (n / 10) (n % 10) acc (omega arith)
          ∙ ap (λ v. digits_value v acc) whole)
]

AllDigits-digits : (fuel n : ℕ) (acc : List ℕ) → AllDigits acc → AllDigits (digits fuel n acc)
unfolding digits
AllDigits-digits zero n acc h = h
AllDigits-digits (suc fuel) n acc h = elim (Bool-cases (ltb n 10)) [
  | inl e ↦ rw (digits, e) (omega arith, omega arith, h)
  | inr e ↦ rw (digits, e) (AllDigits-digits fuel (n / 10) _ (omega arith, omega arith, h))
]

digits-nonempty :
    (fuel n : ℕ) (acc : List ℕ) → (0 < fuel) ⊎ (0 < length acc) → 0 < length (digits fuel n acc)
unfolding digits
digits-nonempty zero n acc h = elim h [ inl x ↦ absurd (omega arith) | inr x ↦ x ]
digits-nonempty (suc fuel) n acc h = elim (Bool-cases (ltb n 10)) [
  | inl e ↦ rw (digits, e) (omega arith)
  | inr e ↦ rw (digits, e) (digits-nonempty fuel (n / 10) _ (inr (omega arith)))
]

-- No digit is a blank, so that nothing is trimmed.
last_not_blank-digits :
    (c : ℕ) (s : List ℕ) → AllDigits (c ∷ s) → last_not_blank (c ∷ s) ≡ some (length s)
unfolding last_not_blank is_blank
last_not_blank-digits c [] (low, high, all) = ground (arith, low)
last_not_blank-digits c (d ∷ s) (low, high, all) = rw (last_not_blank-digits d s all) refl

trim-digits : (s : List ℕ) → AllDigits s → trim s ≡ s
unfolding trim
trim-digits [] all = refl
trim-digits (c ∷ s) all =
    let first : first_not_blank (c ∷ s) ≡ some 0 =
      unfold first_not_blank is_blank in ground (arith, all.0) in
    let count : length s - 0 + 1 ≡ suc (length s) = omega arith in
    rw (trim, first, last_not_blank-digits c s all, count)
      (take_all (suc (length s)) (c ∷ s) (omega arith))

signed-digits :
    (c : ℕ) (s : List ℕ)
    → AllDigits (c ∷ s)
    → digits_value 0 (c ∷ s) < 2 ^ 31
    → signed false (c ∷ s) ≡ some (digits_value 0 (c ∷ s))
unfolding signed starts_with_digit is_digit
signed-digits c s (low, high, all) small =
    let digit : (leb 48 c && leb c 57) ≡ true = ground (arith, low, high) in
    let value : ltb (digits_value 0 (c ∷ s)) (2 ^ 31) ≡ true = lt→ltb _ _ small in
    rw (signed, value, starts_with_digit, is_digit, digit) refl

stoi-digits :
    (s : List ℕ)
    → AllDigits s
    → 0 < length s
    → digits_value 0 s < 2 ^ 31
    → stoi s ≡ some (digits_value 0 s)
unfolding stoi
stoi-digits [] all h small = absurd (omega arith)
stoi-digits (c ∷ s) (low, high, all) h small =
    let space : (c == 32 || leb 9 c && leb c 13) ≡ false = ground (arith, low) in
    let minus : (c == 45) ≡ false = ground (arith, low) in
    let plus : (c == 43) ≡ false = ground (arith, low) in
    rw (stoi, space, minus, plus) (signed-digits c s (low, high, all) small)

-- Lines that are neither blank nor numbers.
abbrev pub AllRefused : List (List ℕ) → Type 0
AllRefused [] = Unit {0}
AllRefused (line ∷ lines) = (0 < length (trim line)) × (stoi (trim line) ≡ none) × AllRefused lines

-- `AskInt` returns the number that is typed: after any lines that `stoi` refuses, a number below 2 ^ 31 typed
-- as `std::to_string` writes it is returned, and the lines behind it are left.
pub ask_int-digits :
    (default_value n : ℕ) (bad rest : List (List ℕ))
    → n < 2 ^ 31
    → AllRefused bad
    → ask_int default_value (bad ++ (digits 10 n [] ∷ rest)) ≡ (n, rest)
unfolding ask_int
ask_int-digits default_value n [] rest h ok =
    let all = AllDigits-digits 10 n [] tt in
    let text = digits-nonempty 10 n [] (inl (omega arith)) in
    let whole : digits_value 0 (digits 10 n []) ≡ n =
      digits_value-digits 10 n [] (omega (arith, h)) ∙ unfold digits_value in refl in
    let some_text : (length (digits 10 n []) == 0) ≡ false = ground (arith, text) in
    let number : stoi (digits 10 n []) ≡ some n =
      stoi-digits (digits 10 n []) all text (rw whole h) ∙ ap some whole in
    rw (ask_int, trim-digits (digits 10 n []) all, some_text, number) refl
ask_int-digits default_value n (line ∷ bad) rest h (text, none_read, ok) =
    let some_text : (length (trim line) == 0) ≡ false = ground (arith, text) in
    rw (ask_int, some_text, none_read) (ask_int-digits default_value n bad rest h ok)
