-- ===== src/Tokens/Joined.antt =====
-- Splitting words that are joined by single spaces.
use beacon_node.Base.{
  List, [], ◌∷◌, ◌++◌, false, ◌≡◌, refl, is_empty, All, append_assoc, append-nil, ◌∙◌, ap, sym,
}
use beacon_node.Base.Text.{Bytes}
use beacon_node.Tokens.{split_tokens}
use beacon_node.Tokens.Words.{IsWord, split_tokens_word, split_tokens_last, split_tokens_line}

-- Each word behind a space.
unfoldable pub spaced : List Bytes → Bytes
spaced [] = []
spaced (w ∷ ws) = b' ' ∷ (w ++ spaced ws)

abbrev pub IsToken : Bytes → Type 0
IsToken w = IsWord w × (is_empty w ≡ false)

pub spaced-append : (ws vs : List Bytes) → spaced (ws ++ vs) ≡ spaced ws ++ spaced vs
unfolding spaced
spaced-append [] vs = refl
spaced-append (w ∷ ws) vs =
    ap (λ s. b' ' ∷ s)
      (ap (λ s. w ++ s) (spaced-append ws vs) ∙ sym (append_assoc w (spaced ws) (spaced vs)))

pub split_tokens-spaced :
    (w : Bytes) (ws : List Bytes)
    → IsToken w
    → All IsToken ws
    → split_tokens (w ++ spaced ws) ≡ w ∷ ws
unfolding spaced
split_tokens-spaced w [] (hw, full) h = rw append-nil (split_tokens_last w hw full)
split_tokens-spaced w (v ∷ ws) (hw, full) (hv, h) =
    split_tokens_word w (v ++ spaced ws) hw full ∙ ap (λ ts. w ∷ ts) (split_tokens-spaced v ws hv h)

-- The same with a line feed at the end.
pub split_tokens-spaced_line :
    (w : Bytes) (ws : List Bytes)
    → IsToken w
    → All IsToken ws
    → split_tokens (w ++ (spaced ws ++ b'\n' ∷ [])) ≡ w ∷ ws
unfolding spaced
split_tokens-spaced_line w [] (hw, full) h = split_tokens_line w hw full
split_tokens-spaced_line w (v ∷ ws) (hw, full) (hv, h) =
    split_tokens_word w ((v ++ spaced ws) ++ b'\n' ∷ []) hw full
    ∙ ap (λ ts. w ∷ ts)
        (ap split_tokens (append_assoc v (spaced ws) (b'\n' ∷ []))
          ∙ split_tokens-spaced_line v ws hv h)
