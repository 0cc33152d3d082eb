-- ===== src/Numbers/RoundTrip.antt =====
-- Reading the decimal digits of a number.
use beacon_node.Base.{
  ℕ, zero, suc, ◌+◌, ◌/◌, ◌%◌, ◌<◌, ◌≤◌, [], ◌∷◌, ◌++◌, true, ◌≡◌, arith, All, All-append,
  append_assoc, append-nil,
}
use beacon_node.Base.Text.{Bytes}
use beacon_node.Numbers.{write_digits, to_string, read_digits, starts_with_digit, parse_number}

abbrev pub IsDigit : ℕ → Type 0
IsDigit c = (b'0' ≤ c) × (c ≤ b'9')

pub write_digits-IsDigit : (fuel n : ℕ) → All IsDigit (write_digits fuel n)
unfolding write_digits
write_digits-IsDigit zero n = omega arith
write_digits-IsDigit (suc fuel) n = ground (
  arith,
  All-append IsDigit (write_digits fuel (n / 10)) ((b'0' + n % 10) ∷ [])
      (write_digits-IsDigit fuel (n / 10)) (omega arith),
)

pub to_string-IsDigit : (n : ℕ) → All IsDigit (to_string n)
unfolding to_string
to_string-IsDigit n = write_digits-IsDigit n n

-- Reading the digits of `n` in front of a text is reading the text behind `n`.
read_digits-write_digits :
    (fuel n : ℕ) (rest : Bytes)
    → n ≤ fuel
    → read_digits 0 (write_digits fuel n ++ rest) ≡ read_digits n rest
unfolding read_digits write_digits
read_digits-write_digits zero n rest h = ground arith
read_digits-write_digits (suc fuel) n rest h = ground (
  arith,
  append_assoc (write_digits fuel (n / 10)) ((b'0' + n % 10) ∷ []) rest,
  read_digits-write_digits fuel (n / 10) ((b'0' + n % 10) ∷ rest),
)

starts_with_digit-write_digits :
    (fuel n : ℕ) (rest : Bytes) → starts_with_digit (write_digits fuel n ++ rest) ≡ true
unfolding write_digits starts_with_digit
starts_with_digit-write_digits zero n rest = ground arith
starts_with_digit-write_digits (suc fuel) n rest = ground (
  arith,
  append_assoc (write_digits fuel (n / 10)) ((b'0' + n % 10) ∷ []) rest,
  starts_with_digit-write_digits fuel (n / 10) ((b'0' + n % 10) ∷ rest),
)

-- A number below the bound of its type is read back whole.
pub parse_number-to_string :
    (bound old n : ℕ)
    → n < bound
    → parse_number bound old (to_string n) ≡ record { succeeded = true; variable = n }
unfolding parse_number to_string read_digits
parse_number-to_string bound old n h = ground (
  arith,
  append-nil (write_digits n n),
  read_digits-write_digits n n [],
  starts_with_digit-write_digits n n [],
)
