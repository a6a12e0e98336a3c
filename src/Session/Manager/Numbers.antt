-- ===== src/Session/Manager/Numbers.antt =====
-- The number at the end of a session's name tells sessions apart.
use vectorcore_twag.Base.{
  ℕ, zero, suc, ◌+◌, ◌-◌, ◌*◌, ◌/◌, ◌%◌, ◌≤◌, ◌<◌, ◌≡◌, refl, ◌∙◌, Bool-cases, inl, inr, [], ◌∷◌,
  ◌++◌, arith, ltb, ◌==◌, if◌then◌else◌,
}
use vectorcore_twag.Base.Text.{Text, text}
use vectorcore_twag.Session.Types.{Time}
use vectorcore_twag.Session.Manager.{decimal_digits, decimal, session_id}

-- The decimal number behind the last dash of a text, read from the left.
abbrev read_char : ℕ → ℕ → ℕ
read_char acc c = if c == b'-' then 0 else acc * 10 + (c - b'0')

read_from : ℕ → Text → ℕ
read_from acc [] = acc
read_from acc (c ∷ s) = read_from (read_char acc c) s

pub last_number : Text → ℕ
last_number s = read_from 0 s

read_from-append : (acc : ℕ) (s t : Text) → read_from acc (s ++ t) ≡ read_from (read_from acc s) t
unfolding read_from
read_from-append acc [] t = refl
read_from-append acc (c ∷ s) t = read_from-append (read_char acc c) s t

read_digit : (acc d : ℕ) → d < 10 → read_from acc ((b'0' + d) ∷ []) ≡ acc * 10 + d
unfolding read_from
read_digit acc d h = ground arith

read_decimal : (fuel n : ℕ) → n ≤ fuel → read_from 0 (decimal_digits fuel n) ≡ n
unfolding decimal_digits
read_decimal zero n h = read_digit 0 (n % 10) (omega arith) ∙ omega arith
read_decimal (suc fuel) n h =
    let front : read_from 0 (decimal_digits fuel (n / 10)) ≡ n / 10 =
      read_decimal fuel (n / 10) (omega arith) in
    elim (Bool-cases (ltb n 10)) [
      | inl small ↦ rw small (read_digit 0 n (ground arith) ∙ omega arith)
      | inr large ↦
          rw (large, read_from-append, front)
            (read_digit (n / 10) (n % 10) (omega arith) ∙ omega arith)
    ]

-- The name of a session ends in its number, whatever the time is.
pub last_number-session_id : (now : Time) (n : ℕ) → last_number (session_id now n) ≡ n
unfolding last_number session_id decimal read_from
last_number-session_id now n =
    read_from-append (read_from 0 (text "twag-")) (decimal now) (b'-' ∷ decimal n)
    ∙ read_decimal n n (omega arith)
