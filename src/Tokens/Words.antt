-- ===== src/Tokens/Words.antt =====
-- Words in a line.
use beacon_node.Base.{
  ℕ, [], ◌∷◌, ◌++◌, false, ◌≡◌, some, ◌==◌, true, not, ◌&&◌, Bool, is_empty, arith, refl, All,
  append_assoc, append-nil,
}
use beacon_node.Base.Text.{Bytes}
use beacon_node.Tokens.{is_space, scan_tokens, split_tokens, after_equals, before_equals}

-- A byte of a word.
abbrev pub IsGraphic : ℕ → Type 0
IsGraphic c = is_space c ≡ false

abbrev pub IsWord : Bytes → Type 0
IsWord s = All IsGraphic s

-- No byte is a line feed.
abbrev pub IsLine : Bytes → Type 0
IsLine s = All (λ c. (c == b'\n') ≡ false) s

-- The text holds no line feed.
unfoldable pub one_line : Bytes → Bool
one_line [] = true
one_line (c ∷ s) = not (c == b'\n') && one_line s

pub one_line-IsLine : (s : Bytes) → one_line s ≡ true → IsLine s
unfolding one_line
one_line-IsLine [] h = tt
one_line-IsLine (c ∷ s) h = ground (arith, one_line-IsLine s)

scan_tokens-word :
    (w rest token : Bytes)
    → IsWord w
    → scan_tokens token (w ++ rest) ≡ scan_tokens (token ++ w) rest
unfolding scan_tokens
scan_tokens-word [] rest token h = rw append-nil
scan_tokens-word (c ∷ w) rest token (hc, h) =
    ground (arith, scan_tokens-word w rest (token ++ c ∷ []) h, append_assoc token (c ∷ []) w)

-- A word, then a space: the word is the first token.
pub split_tokens_word :
    (w rest : Bytes)
    → IsWord w
    → is_empty w ≡ false
    → split_tokens (w ++ b' ' ∷ rest) ≡ w ∷ split_tokens rest
unfolding split_tokens
split_tokens_word w rest h full = ground (arith, scan_tokens-word w (b' ' ∷ rest) [] h)

-- A word at the end of the line.
pub split_tokens_last : (w : Bytes) → IsWord w → is_empty w ≡ false → split_tokens w ≡ w ∷ []
unfolding split_tokens
split_tokens_last w h full = ground (arith, scan_tokens-word w [] [] h, append-nil w)

-- A word and the line feed that ends the line.
pub split_tokens_line :
    (w : Bytes) → IsWord w → is_empty w ≡ false → split_tokens (w ++ b'\n' ∷ []) ≡ w ∷ []
unfolding split_tokens
split_tokens_line w h full = ground (arith, scan_tokens-word w (b'\n' ∷ []) [] h)

-- A name without '='.
abbrev pub IsName : Bytes → Type 0
IsName s = All (λ c. (c == b'=') ≡ false) s

pub after_equals-name : (k v : Bytes) → IsName k → after_equals (k ++ b'=' ∷ v) ≡ some v
unfolding after_equals
after_equals-name [] v h = refl
after_equals-name (c ∷ k) v (hc, h) = ground (arith, after_equals-name k v h)

pub before_equals-name : (k v : Bytes) → IsName k → before_equals (k ++ b'=' ∷ v) ≡ k
unfolding before_equals
before_equals-name [] v h = refl
before_equals-name (c ∷ k) v (hc, h) = ground (arith, before_equals-name k v h)
