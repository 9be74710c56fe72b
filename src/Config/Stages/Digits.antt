-- ===== src/Config/Stages/Digits.antt =====
-- `stoi` reads back what `to_string` prints.
use simple_sdn.Base.{
  ℕ, zero, suc, ◌+◌, ◌-◌, ◌*◌, ◌/◌, ◌%◌, ◌<◌, ◌≤◌, ◌≡◌, ◌≢◌, refl, ap, ltb, [], ◌∷◌, some, Text,
  to_string, decimal, Bool-cases, inl, inr, arith,
}
use simple_sdn.Config.Stages.{stoi, digits_value}

-- Decimal digits.
abbrev pub IsDigits : Text → Type 0
IsDigits [] = Unit
IsDigits (c ∷ t) = ((48 ≤ c) × (c ≤ 57)) × IsDigits t

decimal-IsDigits : (fuel n : ℕ) (acc : Text) → IsDigits acc → IsDigits (decimal fuel n acc)
unfolding decimal
decimal-IsDigits zero n acc h = h
decimal-IsDigits (suc fuel) n acc h =
    let more =
      decimal-IsDigits fuel (n / 10) ((48 + n % 10) ∷ acc) ((omega arith, omega arith), h) in
    ground arith

digit-step :
    (k d : ℕ) (acc : Text)
    → d < 10
    → digits_value k ((48 + d) ∷ acc) ≡ digits_value (k * 10 + d) acc
unfolding digits_value
digit-step k d acc h =
    let e : 48 + d - 48 ≡ d = omega arith in
    ground (arith, ap (λ x. digits_value (k * 10 + x) acc) e)

-- The digits of a number are read back.
digits_value-decimal :
    (fuel n : ℕ) (acc : Text) → n < fuel → digits_value 0 (decimal fuel n acc) ≡ digits_value n acc
unfolding decimal digits_value
digits_value-decimal zero n acc h = absurd (omega arith)
digits_value-decimal (suc fuel) n acc h = elim (Bool-cases (ltb n 10)) [
  | inl small ↦
      let value : 0 * 10 + n % 10 ≡ n = ground arith in
      ground (arith, digit-step 0 (n % 10) acc (omega arith), ap (λ x. digits_value x acc) value)
  | inr big ↦
      let value : n / 10 * 10 + n % 10 ≡ n = omega arith in
      ground (
        arith,
        digits_value-decimal fuel (n / 10) ((48 + n % 10) ∷ acc) (ground arith),
        digit-step (n / 10) (n % 10) acc (omega arith),
        ap (λ x. digits_value x acc) value,
      )
]

stoi-digits :
    (t : Text) (n : ℕ)
    → IsDigits t
    → digits_value 0 t ≡ n
    → n ≤ 2147483647
    → t ≢ []
    → stoi t ≡ some n
unfolding stoi
stoi-digits [] n h v m e = absurd (e refl)
stoi-digits (c ∷ t) n h v m e = ground arith

decimal-filled : (fuel n : ℕ) (acc : Text) → decimal (suc fuel) n acc ≢ []
unfolding decimal
decimal-filled zero n acc e = ground arith
decimal-filled (suc fuel) n acc e =
    let more = decimal-filled fuel (n / 10) ((48 + n % 10) ∷ acc) in ground arith

pub to_string-IsDigits : (n : ℕ) → IsDigits (to_string n)
unfolding to_string
to_string-IsDigits n = decimal-IsDigits (suc n) n [] tt

-- The text of a number that an `int` holds is read back.
pub stoi-to_string : (n : ℕ) → n ≤ 2147483647 → stoi (to_string n) ≡ some n
unfolding to_string digits_value
stoi-to_string n h =
    stoi-digits (to_string n) n (to_string-IsDigits n)
      (digits_value-decimal (suc n) n [] (omega arith)) h (decimal-filled n n [])
