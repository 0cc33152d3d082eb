-- ===== src/SecureBuffer.antt =====
-- src/beacon_net/secure_buffer.hpp: a buffer that is wiped when it is freed.
--
-- `data_` is the block that the buffer owns, or null; each block has one owner, so a block is its
-- bytes. What a fresh block holds is not fixed by the allocator and is a parameter, and so is
-- `sodium_memcmp(...) == 0` of a build with libsodium. An allocation that fails throws, and is not
-- modelled.
pub mod Equality
pub mod Wiping
use Prim.Native.Nat.{bit_or, bit_xor}
use beacon_node.Base.{
  ℕ, zero, suc, ◌+◌, List, [], ◌∷◌, ◌++◌, Bool, true, false, not, ◌||◌, ◌≡◌, ◌≤◌, ◌↔◌, Option, none,
  some, ltb, ◌==◌, if◌then◌else◌, length, take, drop,
}
use beacon_node.Base.Text.{Bytes}

pub record SecureBuffer : Type 0 where
  pub block : Option Bytes
  pub size : ℕ

abbrev pub empty_buffer : SecureBuffer
empty_buffer = record { block = none; size = 0 }

-- The bytes of a new block of the given size.
abbrev pub Allocator : Type 0
Allocator = ℕ → Bytes

-- `alloc`, which overwrites `data_` and `size_`
unfoldable pub alloc : Allocator → ℕ → SecureBuffer
alloc fresh n = record { block = some (fresh n); size = n }

-- `SecureBuffer(size)`
unfoldable pub of_size : Allocator → ℕ → SecureBuffer
unfolding alloc
of_size fresh n = if ltb 0 n then alloc fresh n else empty_buffer

-- `std::copy(bytes.begin(), bytes.end(), buffer.data())`, and `std::memcpy`
unfoldable pub write_front : Bytes → SecureBuffer → SecureBuffer
write_front bytes b = elim b.block [
  | none ↦ b
  | some old ↦ record b { block = some (bytes ++ drop (length bytes) old) }
]

-- The move constructor: the new buffer, and what is left in the other.
unfoldable pub move_from : SecureBuffer → SecureBuffer × SecureBuffer
move_from other = (other, empty_buffer)

unfoldable pub clear : SecureBuffer → SecureBuffer
clear b = empty_buffer

unfoldable pub resize : Allocator → ℕ → SecureBuffer → SecureBuffer
unfolding alloc clear write_front
resize fresh new_size b =
    if new_size == b.size || new_size == 0
    then if new_size == 0 then clear b else b
    else elim b.block [
      | none ↦ alloc fresh new_size
      | some old ↦
          write_front (take (if ltb b.size new_size then b.size else new_size) old)
            (alloc fresh new_size)
    ]

-- `diff |= (data_[i] ^ other.data_[i])` over the bytes of both blocks, which have one length.
unfoldable pub difference : ℕ → Bytes → Bytes → ℕ
difference diff [] ys = diff
difference diff (x ∷ xs) [] = diff
difference diff (x ∷ xs) (y ∷ ys) = difference (bit_or diff (bit_xor x y)) xs ys

-- `sodium_memcmp(a, b, size) == 0` of a build with libsodium, `none` in a build without.
abbrev pub MemoryTest : Type 0
MemoryTest = Option (Bytes → Bytes → Bool)

unfoldable pub same_bytes : MemoryTest → Bytes → Bytes → Bool
unfolding difference
same_bytes none xs ys = difference 0 xs ys == 0
same_bytes (some test) xs ys = test xs ys

-- `if (!data_ || !other.data_) return data_ == other.data_;` and the comparison behind it
unfoldable pub same_blocks : MemoryTest → Option Bytes → Option Bytes → Bool
same_blocks test none none = true
same_blocks test none (some ys) = false
same_blocks test (some xs) none = false
same_blocks test (some xs) (some ys) = same_bytes test xs ys

unfoldable pub constant_time_equals : MemoryTest → SecureBuffer → SecureBuffer → Bool
unfolding same_blocks
constant_time_equals test a b =
    if not (a.size == b.size) then false else same_blocks test a.block b.block

-- A buffer owns a block exactly if its size is not 0, and the block has that many bytes.
abbrev pub HasBlock : Option Bytes → ℕ → Type 0
HasBlock none n = n ≡ 0
HasBlock (some bs) n = (length bs ≡ n) × (1 ≤ n)

pub record IsValid (b : SecureBuffer) : Type 0 where
  pub owns : HasBlock b.block b.size
