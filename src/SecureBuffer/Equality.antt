-- ===== src/SecureBuffer/Equality.antt =====
-- The comparison and the resizing of src/beacon_net/secure_buffer.hpp.
use Prim.Native.Nat.{bit_or, bit_xor}
use beacon_node.Base.{
  ℕ, ◌≤◌, [], ◌∷◌, ◌++◌, true, false, not, ◌≡◌, ◌↔◌, Option, none, some, ltb, ◌==◌, if◌then◌else◌,
  length, take, drop, arith, refl, length-append, length-take, length-drop, min, take-append,
}
use beacon_node.Base.Bits.{bit_or_null, bit_xor-zero, bit_xor_self, zero-bit_or_zero}
use beacon_node.Base.Text.{Bytes}
use beacon_node.SecureBuffer.{
  SecureBuffer, MemoryTest, same_bytes, difference, constant_time_equals, IsValid, HasBlock,
  Allocator, resize, same_blocks,
}

difference_zero :
    (diff : ℕ) (xs ys : Bytes)
    → length xs ≡ length ys
    → difference diff xs ys ≡ 0
    → (diff ≡ 0) × (xs ≡ ys)
unfolding difference
difference_zero diff [] [] h e = (e, refl)
difference_zero diff [] (y ∷ ys) h e = absurd (omega arith)
difference_zero diff (x ∷ xs) [] h e = absurd (omega arith)
difference_zero diff (x ∷ xs) (y ∷ ys) h e = ground (
  arith,
  difference_zero (bit_or diff (bit_xor x y)) xs ys,
  bit_or_null diff (bit_xor x y),
  bit_xor-zero x y,
)

difference_self : (xs : Bytes) → difference 0 xs xs ≡ 0
unfolding difference
difference_self [] = refl
difference_self (x ∷ xs) = ground (arith, difference_self xs, bit_xor_self x, zero-bit_or_zero)

-- What libsodium documents: the test tells whether two blocks of one length are the same.
abbrev pub IsExact : MemoryTest → Type 0
IsExact none = Unit
IsExact (some test) = (xs ys : Bytes) → length xs ≡ length ys → (test xs ys ≡ true) ↔ (xs ≡ ys)

same_bytes_iff :
    (t : MemoryTest) (xs ys : Bytes)
    → IsExact t
    → length xs ≡ length ys
    → (same_bytes t xs ys ≡ true) ↔ (xs ≡ ys)
unfolding same_bytes
same_bytes_iff none xs ys x h =
    (λ e. (difference_zero 0 xs ys h (ground arith)).1, λ e. ground (arith, difference_self xs))
same_bytes_iff (some test) xs ys x h = x xs ys h

sized_blocks_iff :
    (t : MemoryTest) (p q : Option Bytes) (m n : ℕ)
    → IsExact t
    → HasBlock p m
    → HasBlock q n
    → ((if not (m == n) then false else same_blocks t p q) ≡ true) ↔ (p ≡ q)
unfolding same_blocks
sized_blocks_iff t none none m n x hp hq = (λ e. refl, λ e. ground arith)
sized_blocks_iff t none (some ys) m n x hp hq = (λ e. ground arith, λ e. cc)
sized_blocks_iff t (some xs) none m n x hp hq = (λ e. ground arith, λ e. cc)
sized_blocks_iff t (some xs) (some ys) m n x hp hq =
    (λ e. ground (arith, same_bytes_iff t xs ys x), λ e. ground (arith, same_bytes_iff t xs ys x))

-- Two valid buffers compare equal exactly if they hold the same bytes, in a build without libsodium,
-- and in one with it if its comparison does what it documents.
pub constant_time_equals_iff :
    (t : MemoryTest) (a b : SecureBuffer)
    → IsExact t
    → IsValid a
    → IsValid b
    → (constant_time_equals t a b ≡ true) ↔ (a.block ≡ b.block)
unfolding constant_time_equals
constant_time_equals_iff t a b x va vb =
    sized_blocks_iff t a.block b.block a.size b.size x va.owns vb.owns

-- The bytes that a buffer holds; none without a block.
abbrev pub held : Option Bytes → Bytes
held none = []
held (some bs) = bs

take-append_at : (k : ℕ) (xs ys : Bytes) → length xs ≡ k → take k (xs ++ ys) ≡ xs
take-append_at k xs ys h = rw h at (take-append xs ys)

-- A front of one block over the front of another one.
overwritten :
    (k : ℕ) (old new : Bytes)
    → k ≤ length old
    → k ≤ length new
    → (length (take k old ++ drop (length (take k old)) new) ≡ length new)
      × (take k (take k old ++ drop (length (take k old)) new) ≡ take k old)
overwritten k old new h h' = (
  omega (
    arith,
    length-append (take k old) (drop (length (take k old)) new),
    length-take k old,
    length-drop (length (take k old)) new,
  ),
  take-append_at k (take k old) _ (omega (arith, length-take k old)),
)

smaller_size : (m n : ℕ) → (if ltb m n then m else n) ≡ min m n
smaller_size m n = ground arith

resized :
    (fresh : Allocator) (n m : ℕ) (p : Option Bytes)
    → ((k : ℕ) → length (fresh k) ≡ k)
    → HasBlock p m
    → IsValid (resize fresh n (record { block = p; size = m }))
      × ((resize fresh n (record { block = p; size = m })).size ≡ n)
      × (take (min m n) (held (resize fresh n (record { block = p; size = m })).block)
          ≡ take (min m n) (held p))
unfolding resize
resized fresh n m none sized h = ground (arith, sized n)
resized fresh n m (some old) sized h =
    ground (arith, sized n, smaller_size m n, overwritten (min m n) old (fresh n))

-- `resize` of a valid buffer gives a valid buffer of the new size, and keeps the bytes below both sizes.
pub resize_lem :
    (fresh : Allocator) (n : ℕ) (b : SecureBuffer)
    → ((k : ℕ) → length (fresh k) ≡ k)
    → IsValid b
    → IsValid (resize fresh n b)
      × ((resize fresh n b).size ≡ n)
      × (take (min b.size n) (held (resize fresh n b).block) ≡ take (min b.size n) (held b.block))
resize_lem fresh n b sized v = resized fresh n b.size b.block sized v.owns
