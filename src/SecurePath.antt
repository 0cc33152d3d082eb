-- ===== src/SecurePath.antt =====
-- `resolve_secure_path`, which src/beacon/identity_store.cpp and src/beacon_net/persistence_service.cpp both
-- hold. The file system is a parameter: `canonical` is `weakly_canonical` of the absolute path, none where
-- it reports an error, and `join` is the operator `/` on paths.
use beacon_node.Base.{
  ℕ, ap, [], ◌∷◌, ◌++◌, Bool, not, ◌&&◌, ◌||◌, false, Option, none, some, if◌then◌else◌, length,
  ltb, ◌==◌, ◌≡◌, ◌⊎◌, inl, inr, arith, refl,
}
use beacon_node.Base.Text.{Bytes}
use beacon_node.Framing.{byte_at}
use beacon_node.Tokens.{starts_with}

pub record PathSystem : Type 0 where
  pub canonical : Bytes → Option Bytes
  pub join : Bytes → Bytes → Bytes

-- The test behind which the function throws "Path traversal detected".
unfoldable pub leaves : Bytes → Bytes → Bool
leaves base_str res_str =
    ltb (length res_str) (length base_str)
    || (not (starts_with res_str base_str)
        || (ltb (length base_str) (length res_str)
            && (not (byte_at res_str (length base_str) == b'/')
                && not (byte_at res_str (length base_str) == b'\\'))))

-- The resolved path; none where the function throws.
unfoldable pub resolve_secure_path : PathSystem → Bytes → Bytes → Option Bytes
unfolding leaves
resolve_secure_path paths base user_path = elim (PathSystem.canonical paths base) [
  | none ↦ none
  | some base_abs ↦ elim (PathSystem.canonical paths (PathSystem.join paths base_abs user_path)) [
    | none ↦ none
    | some resolved ↦ if leaves base_abs resolved then none else some resolved
  ]
]

-- The path is the base, or lies behind the base and a separator.
abbrev pub Below : Bytes → Bytes → Type 0
Below base path =
    (path ≡ base) ⊎ (rest : Bytes) × ((path ≡ base ++ b'/' ∷ rest) ⊎ (path ≡ base ++ b'\\' ∷ rest))

Below-cons : (c d : ℕ) (base path : Bytes) → d ≡ c → Below base path → Below (c ∷ base) (d ∷ path)
Below-cons c d base path e (inl q) = inl (cc (e, q))
Below-cons c d base path e (inr (rest, inl q)) = inr (rest, inl (cc (e, q)))
Below-cons c d base path e (inr (rest, inr q)) = inr (rest, inr (cc (e, q)))

separator : (d : ℕ) (s : Bytes) → leaves [] (d ∷ s) ≡ false → (d ≡ b'/') ⊎ (d ≡ b'\\')
unfolding leaves starts_with
separator d s h = ground (arith, h)

leaves-cons :
    (c d : ℕ) (base path : Bytes)
    → leaves (c ∷ base) (d ∷ path) ≡ false
    → (d ≡ c) × (leaves base path ≡ false)
unfolding leaves starts_with
leaves-cons c d base path h = ground (arith, h)

not_leaves-Below : (base path : Bytes) → leaves base path ≡ false → Below base path
not_leaves-Below [] [] h = inl refl
not_leaves-Below [] (d ∷ s) h = elim (separator d s h) [
  | inl e ↦ inr (s, inl (ap (λ c. c ∷ s) e))
  | inr e ↦ inr (s, inr (ap (λ c. c ∷ s) e))
]
not_leaves-Below (c ∷ base) [] h = unfold leaves in ground (arith, h)
not_leaves-Below (c ∷ base) (d ∷ path) h =
    let (same, rest) = leaves-cons c d base path h in
    Below-cons c d base path same (not_leaves-Below base path rest)

-- A path that `resolve_secure_path` returns is the base, as the file system resolves it, or lies behind
-- the base and a separator, whatever the file system makes of the two paths.
pub resolve_secure_path-Below :
    (paths : PathSystem) (base user_path resolved : Bytes)
    → resolve_secure_path paths base user_path ≡ some resolved
    → (base_abs : Bytes) × (PathSystem.canonical paths base ≡ some base_abs)
      × Below base_abs resolved
unfolding resolve_secure_path
resolve_secure_path-Below paths base user_path resolved h =
    with_base (PathSystem.canonical paths base) refl
  where
    with_base :
        (b : Option Bytes)
        → PathSystem.canonical paths base ≡ b
        → (base_abs : Bytes) × (PathSystem.canonical paths base ≡ some base_abs)
          × Below base_abs resolved
    with_base none e = absurd (ground (arith, e, h))
    with_base (some b) e = (b, e, not_leaves-Below b resolved (ground (arith, e, h)))
