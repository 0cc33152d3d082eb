-- ===== src/Persistence/Blocks.antt =====
-- Reading back what was written: numbers, texts, and the front of a file that was cut.
use beacon_node.Base.{
  ℕ, zero, suc, ◌+◌, ◌-◌, ◌^◌, ◌<◌, ◌≤◌, [], ◌∷◌, ◌++◌, ◌≡◌, refl, arith, none, some, ltb,
  if◌then◌else◌, length, take, drop, length-append, length-take, take-append, drop-append, ap, sym,
  take_all,
}
use beacon_node.Base.Text.{Bytes}
use beacon_node.Persistence.{write_u32, le_value, read_bytes, block, compute_crc32}

pub le_value-write_u32 : (n : ℕ) → n < 2 ^ 32 → le_value (write_u32 n) ≡ n
unfolding le_value write_u32
le_value-write_u32 n h = omega arith

pub length-write_u32 : (n : ℕ) → length (write_u32 n) ≡ 4
unfolding write_u32
length-write_u32 n = refl

pub read_bytes-append :
    (n : ℕ) (s rest : Bytes) → length s ≡ n → read_bytes n (s ++ rest) ≡ some (s, rest)
unfolding read_bytes
read_bytes-append n s rest h =
    ground (arith, length-append s rest, rw h at (take-append s rest), rw h at (drop-append s rest))

pub read_u32 :
    (n : ℕ) (rest : Bytes) → read_bytes 4 (write_u32 n ++ rest) ≡ some (write_u32 n, rest)
read_u32 n rest = read_bytes-append 4 (write_u32 n) rest (length-write_u32 n)

take-take : (k m : ℕ) (s : Bytes) → k ≤ m → take k (take m s) ≡ take k s
take-take zero m s h = refl
take-take (suc k) zero s h = absurd (omega arith)
take-take (suc k) (suc m) [] h = refl
take-take (suc k) (suc m) (c ∷ s) h = ap (λ t. c ∷ t) (take-take k m s (omega arith))

take-nil : (n : ℕ) → take {A = ℕ} n [] ≡ []
take-nil zero = refl
take-nil (suc n) = refl

drop-take : (k m : ℕ) (s : Bytes) → drop k (take m s) ≡ take (m - k) (drop k s)
drop-take zero m s = ground arith
drop-take (suc k) zero s = ground arith
drop-take (suc k) (suc m) [] = sym (take-nil (suc m - suc k))
drop-take (suc k) (suc m) (c ∷ s) = ground (arith, drop-take k m s)

-- A read from the first `m` bytes of a file.
pub read_bytes-take :
    (k m : ℕ) (s : Bytes)
    → m ≤ length s
    → read_bytes k (take m s) ≡ (if ltb m k then none else some (take k s, take (m - k) (drop k s)))
unfolding read_bytes
read_bytes-take k m s h = ground (arith, length-take m s, take-take k m s, drop-take k m s)

-- A block whose text fits 32 bits.
pub block_small :
    (s : Bytes)
    → length s < 2 ^ 32
    → block s ≡ write_u32 (length s) ++ (write_u32 (compute_crc32 s) ++ s)
unfolding block
block_small s h = ground (arith, take_all (length s) s)

pub length-block : (s : Bytes) → length s < 2 ^ 32 → length (block s) ≡ length s + 8
length-block s h = omega (
  arith,
  ap length (block_small s h),
  length-append (write_u32 (length s)) (write_u32 (compute_crc32 s) ++ s),
  length-append (write_u32 (compute_crc32 s)) s,
  length-write_u32 (length s),
  length-write_u32 (compute_crc32 s),
)
