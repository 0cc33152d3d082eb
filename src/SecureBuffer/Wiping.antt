-- ===== src/SecureBuffer/Wiping.antt =====
-- What src/beacon_net/secure_buffer.hpp gives back to the allocator, over the life of a buffer.
use beacon_node.Base.{
  ℕ, zero, suc, List, [], ◌∷◌, ◌++◌, not, ◌&&◌, ◌≡◌, refl, Option, none, some, ◌==◌, if◌then◌else◌,
  length, arith, All, All-append, Bool-cases, inl, inr,
}
use beacon_node.Base.Text.{Bytes}
use beacon_node.SecureBuffer.{SecureBuffer, empty_buffer, Allocator, clear, resize, IsValid}
use beacon_node.SecureBuffer.Equality.{resize_lem}

-- `sodium_memzero(data, size)` of a build with libsodium, `none` in a build without.
abbrev pub MemoryWipe : Type 0
MemoryWipe = Option (ℕ → Bytes → Bytes)

-- `for (i = 0; i < size; ++i) p[i] = 0`
unfoldable pub zero_front : ℕ → Bytes → Bytes
zero_front zero bs = bs
zero_front (suc n) [] = []
zero_front (suc n) (b ∷ bs) = 0 ∷ zero_front n bs

unfoldable pub wipe : MemoryWipe → ℕ → Bytes → Bytes
unfolding zero_front
wipe none size block = zero_front size block
wipe (some memzero) size block = memzero size block

-- `wipe_and_free`: what the block holds when it is freed. A buffer without a block frees nothing.
unfoldable pub wipe_and_free : MemoryWipe → SecureBuffer → List Bytes
unfolding wipe
wipe_and_free memory b = elim b.block [ none ↦ [] | some block ↦ wipe memory b.size block ∷ [] ]

-- What `resize` frees: the old block, once its bytes are copied.
unfoldable pub freed_by_resize : MemoryWipe → ℕ → SecureBuffer → List Bytes
unfolding wipe_and_free
freed_by_resize memory new_size b =
    if new_size == b.size && not (new_size == 0) then [] else wipe_and_free memory b

-- `operator[]`, on the left of an assignment. An index out of the block has no defined behaviour.
unfoldable pub set_byte : ℕ → ℕ → Bytes → Bytes
set_byte i v [] = []
set_byte zero v (b ∷ bs) = v ∷ bs
set_byte (suc i) v (b ∷ bs) = b ∷ set_byte i v bs

-- What a program does with a buffer: it writes a byte, calls a method, moves another buffer into it, or moves
-- it into another one.
pub data Use : Type 0 where
  write : ℕ → ℕ → Use
  resize_to : ℕ → Use
  cleared : Use
  assigned : SecureBuffer → Use
  moved_away : Use

-- The buffer after a use, and what is freed.
unfoldable pub apply : Allocator → MemoryWipe → SecureBuffer → Use → SecureBuffer × List Bytes
unfolding wipe_and_free freed_by_resize set_byte clear
apply fresh memory b (write i v) = elim b.block [
  | none ↦ (b, [])
  | some block ↦ (record b { block = some (set_byte i v block) }, [])
]
apply fresh memory b (resize_to n) = (resize fresh n b, freed_by_resize memory n b)
apply fresh memory b cleared = (clear b, wipe_and_free memory b)
apply fresh memory b (assigned other) = (other, wipe_and_free memory b)
apply fresh memory b moved_away = (empty_buffer, [])

-- All that is freed while the buffer is used, and by its destructor.
unfoldable pub lifetime : Allocator → MemoryWipe → SecureBuffer → List Use → List Bytes
unfolding apply wipe_and_free
lifetime fresh memory b [] = wipe_and_free memory b
lifetime fresh memory b (u ∷ uses) =
    let (next, freed) = apply fresh memory b u in freed ++ lifetime fresh memory next uses

abbrev pub IsWiped : Bytes → Type 0
IsWiped = All (λ byte. byte ≡ 0)

-- What libsodium documents: `sodium_memzero` overwrites as many bytes with zeros as it is told.
abbrev pub Wipes : MemoryWipe → Type 0
Wipes none = Unit
Wipes (some memzero) = (block : Bytes) → IsWiped (memzero (length block) block)

-- A buffer that is moved into the other one is valid.
abbrev pub IsValidUse : Use → Type 0
IsValidUse (assigned other) = IsValid other
IsValidUse _ = Unit

zero_front-IsWiped : (block : Bytes) → IsWiped (zero_front (length block) block)
unfolding zero_front
zero_front-IsWiped [] = tt
zero_front-IsWiped (b ∷ bs) = (refl, zero_front-IsWiped bs)

wipe-IsWiped :
    (memory : MemoryWipe) (n : ℕ) (block : Bytes)
    → Wipes memory
    → length block ≡ n
    → IsWiped (wipe memory n block)
unfolding wipe
wipe-IsWiped none n block h e = rw (← e) (zero_front-IsWiped block)
wipe-IsWiped (some memzero) n block h e = rw (← e) (h block)

length-set_byte : (i v : ℕ) (bs : Bytes) → length (set_byte i v bs) ≡ length bs
unfolding set_byte
length-set_byte i v [] = refl
length-set_byte zero v (b ∷ bs) = refl
length-set_byte (suc i) v (b ∷ bs) = omega (arith, length-set_byte i v bs)

module _ (fresh : Allocator) (memory : MemoryWipe) (sized : (k : ℕ) → length (fresh k) ≡ k)
    (wipes : Wipes memory) where
  wipe_and_free-IsWiped : (b : SecureBuffer) → IsValid b → All IsWiped (wipe_and_free memory b)
  unfolding wipe_and_free
  wipe_and_free-IsWiped b v = by_block b.block refl
    where
      by_block : (o : Option Bytes) → b.block ≡ o → All IsWiped (wipe_and_free memory b)
      by_block none e = rw (e, wipe_and_free) tt
      by_block (some block) e =
          rw (e, wipe_and_free)
            (wipe-IsWiped memory b.size block wipes (ground (arith, v.owns, e)), tt)

  freed_by_resize-IsWiped :
      (n : ℕ) (b : SecureBuffer) → IsValid b → All IsWiped (freed_by_resize memory n b)
  unfolding freed_by_resize
  freed_by_resize-IsWiped n b v = elim (Bool-cases (n == b.size && not (n == 0))) [
    | inl e ↦ rw e tt
    | inr e ↦ rw e (wipe_and_free-IsWiped b v)
  ]

  apply-IsWiped :
      (b : SecureBuffer) (u : Use)
      → IsValid b
      → IsValidUse u
      → IsValid (apply fresh memory b u).0 × All IsWiped (apply fresh memory b u).1
  unfolding apply clear
  apply-IsWiped b (write i x) v h = by_block b.block refl
    where
      by_block :
          (o : Option Bytes)
          → b.block ≡ o
          → IsValid (apply fresh memory b (write i x)).0
            × All IsWiped (apply fresh memory b (write i x)).1
      by_block none e = rw (e, apply) (v, tt)
      by_block (some block) e =
          rw (e, apply) (record { owns = ground (arith, v.owns, e, length-set_byte i x block) }, tt)
  apply-IsWiped b (resize_to n) v h =
      ((resize_lem fresh n b sized v).0, freed_by_resize-IsWiped n b v)
  apply-IsWiped b cleared v h = (record { owns = refl }, wipe_and_free-IsWiped b v)
  apply-IsWiped b (assigned other) v h = (h, wipe_and_free-IsWiped b v)
  apply-IsWiped b moved_away v h = (record { owns = refl }, tt)

  -- However a valid buffer is used, until its destructor has run, every block that is freed holds nothing
  -- but zeros, if new blocks have the size that is asked for and libsodium overwrites as it documents.
  pub lifetime-IsWiped :
      (b : SecureBuffer) (uses : List Use)
      → IsValid b
      → All IsValidUse uses
      → All IsWiped (lifetime fresh memory b uses)
  unfolding lifetime
  lifetime-IsWiped b [] v h = wipe_and_free-IsWiped b v
  lifetime-IsWiped b (u ∷ uses) v (hu, h) =
      let (valid, wiped) = apply-IsWiped b u v hu in
      All-append IsWiped (apply fresh memory b u).1
        (lifetime fresh memory (apply fresh memory b u).0 uses) wiped
        (lifetime-IsWiped (apply fresh memory b u).0 uses valid h)
