-- ===== src/Base/Bits.antt =====
-- Bitwise operations, digit by digit.
use Prim.Native.Nat.{bit_or, bit_xor, differ, digits, bit_or-bitwise, bit_xor-bitwise}
use native.Mathlib.Nat.{pow-suc}
use native.Mathlib.Omega.{arith}
use Prim.Native.Nat.{ℕ, zero, suc, ◌+◌, ◌*◌, ◌/◌, ◌%◌, ◌^◌, ◌≤◌, ◌<◌, max}
use mathlib.Core.Path.{◌≡◌, refl, ap, sym, ◌∙◌}

-- The recursion that stands for `|` needs only as many rounds as its first argument.
or_rounds : (f g x y : ℕ) → x ≤ f → x ≤ g → digits (λ t. t) max f x y ≡ digits (λ t. t) max g x y
or_rounds zero zero x y p q = refl
or_rounds zero (suc g) zero y p q = refl
or_rounds zero (suc g) (suc x) y p q = absurd (omega arith)
or_rounds (suc f) zero zero y p q = refl
or_rounds (suc f) zero (suc x) y p q = absurd (omega arith)
or_rounds (suc f) (suc g) zero y p q = refl
or_rounds (suc f) (suc g) (suc x) y p q =
    omega (arith, or_rounds f g (suc x / 2) (y / 2) (omega arith) (omega arith))

zero-bit_or : (y : ℕ) → bit_or 0 y ≡ y
zero-bit_or y = bit_or-bitwise 0 y

-- The lowest binary digit of `x | y`, and the others.
bit_or_last : (x y : ℕ) → bit_or x y ≡ bit_or (x / 2) (y / 2) * 2 + max (x % 2) (y % 2)
bit_or_last zero y = omega (arith, zero-bit_or y, zero-bit_or (y / 2))
bit_or_last (suc x) y = omega (
  arith,
  bit_or-bitwise (suc x) y,
  bit_or-bitwise (suc x / 2) (y / 2),
  or_rounds x (suc x / 2) (suc x / 2) (y / 2) (omega arith) (omega arith),
)

bit_or-zero_upto : (n x : ℕ) → x ≤ n → bit_or x 0 ≡ x
bit_or-zero_upto n zero h = refl
bit_or-zero_upto zero (suc x) h = absurd (omega arith)
bit_or-zero_upto (suc n) (suc x) h =
    omega (arith, bit_or_last (suc x) 0, bit_or-zero_upto n (suc x / 2) (omega arith))

shift_once : (hi w : ℕ) → hi * 2 ^ suc w ≡ 2 * (hi * 2 ^ w)
shift_once hi w = omega (arith, ap (λ (t : ℕ). hi * t) (pow-suc 2 w))

-- `(hi << w) | lo` is a sum where `lo` fits in `w` bits.
pub bit_or_shifted : (w hi lo : ℕ) → lo < 2 ^ w → bit_or (hi * 2 ^ w) lo ≡ hi * 2 ^ w + lo
bit_or_shifted zero hi lo h = ground (arith, bit_or-zero_upto hi hi)
bit_or_shifted (suc w) hi lo h = ground (
  arith,
  bit_or_last (hi * 2 ^ suc w) lo,
  shift_once hi w,
  pow-suc 2 w,
  bit_or_shifted w hi (lo / 2),
)

xor_rounds :
    (f g x y : ℕ) → x ≤ f → x ≤ g → digits (λ t. t) differ f x y ≡ digits (λ t. t) differ g x y
xor_rounds zero zero x y p q = refl
xor_rounds zero (suc g) zero y p q = refl
xor_rounds zero (suc g) (suc x) y p q = absurd (omega arith)
xor_rounds (suc f) zero zero y p q = refl
xor_rounds (suc f) zero (suc x) y p q = absurd (omega arith)
xor_rounds (suc f) (suc g) zero y p q = refl
xor_rounds (suc f) (suc g) (suc x) y p q =
    ap (λ t. t * 2 + differ (suc x % 2) (y % 2))
      (xor_rounds f g (suc x / 2) (y / 2) (omega arith) (omega arith))

pub zero-bit_xor : (y : ℕ) → bit_xor 0 y ≡ y
zero-bit_xor y = bit_xor-bitwise 0 y

-- The lowest binary digit of `x ^ y`, and the others.
pub bit_xor_last : (x y : ℕ) → bit_xor x y ≡ bit_xor (x / 2) (y / 2) * 2 + differ (x % 2) (y % 2)
bit_xor_last zero y = omega (arith, zero-bit_xor y, zero-bit_xor (y / 2))
bit_xor_last (suc x) y =
    bit_xor-bitwise (suc x) y
    ∙ ap (λ t. t * 2 + differ (suc x % 2) (y % 2))
        (xor_rounds x (suc x / 2) (suc x / 2) (y / 2) (omega arith) (omega arith)
          ∙ sym (bit_xor-bitwise (suc x / 2) (y / 2)))

differ-zero : (d e : ℕ) → differ d e ≡ 0 → d ≡ e
differ-zero zero e h = sym h
differ-zero (suc d) zero h = h
differ-zero (suc d) (suc e) h = ap (λ n. suc n) (differ-zero d e h)

differ_self : (d : ℕ) → differ d d ≡ 0
differ_self zero = refl
differ_self (suc d) = differ_self d

bit_xor-zero_upto : (n x y : ℕ) → x ≤ n → bit_xor x y ≡ 0 → x ≡ y
bit_xor-zero_upto n zero y h e = omega (arith, zero-bit_xor y)
bit_xor-zero_upto zero (suc x) y h e = absurd (omega arith)
bit_xor-zero_upto (suc n) (suc x) y h e = omega (
  arith,
  bit_xor_last (suc x) y,
  bit_xor-zero_upto n (suc x / 2) (y / 2) (omega arith) (omega (arith, bit_xor_last (suc x) y)),
  differ-zero (suc x % 2) (y % 2) (omega (arith, bit_xor_last (suc x) y)),
)

-- `x ^ y` is 0 only if the two are the same.
pub bit_xor-zero : (x y : ℕ) → bit_xor x y ≡ 0 → x ≡ y
bit_xor-zero x y = bit_xor-zero_upto x x y (omega arith)

bit_xor_self_upto : (n x : ℕ) → x ≤ n → bit_xor x x ≡ 0
bit_xor_self_upto n zero h = refl
bit_xor_self_upto zero (suc x) h = absurd (omega arith)
bit_xor_self_upto (suc n) (suc x) h = omega (
  arith,
  bit_xor_last (suc x) (suc x),
  differ_self (suc x % 2),
  bit_xor_self_upto n (suc x / 2) (omega arith),
)

pub bit_xor_self : (x : ℕ) → bit_xor x x ≡ 0
bit_xor_self x = bit_xor_self_upto x x (omega arith)

bit_or_null_upto : (n x y : ℕ) → x ≤ n → bit_or x y ≡ 0 → (x ≡ 0) × (y ≡ 0)
bit_or_null_upto n zero y h e = omega (arith, zero-bit_or y)
bit_or_null_upto zero (suc x) y h e = absurd (omega arith)
bit_or_null_upto (suc n) (suc x) y h e = omega (
  arith,
  bit_or_last (suc x) y,
  bit_or_null_upto n (suc x / 2) (y / 2) (omega arith) (omega (arith, bit_or_last (suc x) y)),
)

-- `x | y` is 0 only if both are.
pub bit_or_null : (x y : ℕ) → bit_or x y ≡ 0 → (x ≡ 0) × (y ≡ 0)
bit_or_null x y = bit_or_null_upto x x y (omega arith)

pub zero-bit_or_zero : bit_or 0 0 ≡ 0
zero-bit_or_zero = refl
