-- ===== src/Numbers.antt =====
-- Decimal numbers as the C++ library writes and reads them: `std::to_string` of an unsigned number,
-- and `std::from_chars` into an unsigned type.
pub mod RoundTrip
use beacon_node.Base.{
  ℕ, zero, suc, ◌+◌, ◌-◌, ◌*◌, ◌/◌, ◌%◌, ◌^◌, List, [], ◌∷◌, ◌++◌, Bool, true, false, ◌&&◌, Option,
  none, some, ltb, leb, if◌then◌else◌, is_empty,
}
use beacon_node.Base.Text.{Bytes}

-- The digits of `n`, with `fuel` rounds for all but the first digit; `n` rounds are enough.
unfoldable pub write_digits : ℕ → ℕ → Bytes
write_digits zero n = (b'0' + n % 10) ∷ []
write_digits (suc fuel) n =
    let front = write_digits fuel (n / 10) in
    if ltb n 10 then (b'0' + n) ∷ [] else front ++ (b'0' + n % 10) ∷ []

unfoldable pub to_string : ℕ → Bytes
unfolding write_digits
to_string n = write_digits n n

abbrev pub is_digit : ℕ → Bool
is_digit c = leb b'0' c && leb c b'9'

-- The number that the leading digits spell behind `acc`, and what follows them.
unfoldable pub read_digits : ℕ → Bytes → ℕ × Bytes
read_digits acc [] = (acc, [])
read_digits acc (c ∷ s) =
    let rest = read_digits (acc * 10 + (c - b'0')) s in if is_digit c then rest else (acc, c ∷ s)

-- What `std::from_chars` leaves: the value it writes, if any, and the unread text. It writes nothing
-- if there is no digit or if the number does not fit below `bound`.
pub record FromChars : Type 0 where
  pub value : Option ℕ
  pub rest : Bytes

unfoldable pub starts_with_digit : Bytes → Bool
starts_with_digit [] = false
starts_with_digit (c ∷ s) = is_digit c

unfoldable pub from_chars : ℕ → Bytes → FromChars
unfolding read_digits starts_with_digit
from_chars bound s =
    let n = (read_digits 0 s).0 in
    let left = (read_digits 0 s).1 in
    if starts_with_digit s
    then if ltb n bound
      then record { value = some n; rest = left }
      else record { value = none; rest = left }
    else record { value = none; rest = s }

-- `result.ec == std::errc{} && result.ptr == end`, with the variable afterwards; it keeps its value
-- `old` where nothing is written.
pub record Parsed : Type 0 where
  pub succeeded : Bool
  pub variable : ℕ

unfoldable pub parse_number : ℕ → ℕ → Bytes → Parsed
unfolding from_chars
parse_number bound old s = elim (from_chars bound s).value [
  | none ↦ record { succeeded = false; variable = old }
  | some n ↦ record { succeeded = is_empty (from_chars bound s).rest; variable = n }
]

abbrev pub u64_bound : ℕ
u64_bound = 2 ^ 64

abbrev pub u32_bound : ℕ
u32_bound = 2 ^ 32
