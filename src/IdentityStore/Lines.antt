-- ===== src/IdentityStore/Lines.antt =====
-- The identity file of src/beacon/identity_store.cpp as `read_value` reads it.
use beacon_node.Base.{
  ℕ, ◌/◌, ◌%◌, List, [], ◌∷◌, ◌++◌, false, none, some, ◌==◌, ◌≡◌, refl, ◌∙◌, ap, sym, arith, All,
  append_assoc, All-append,
}
use beacon_node.Base.Text.{Bytes, codes, str_eq, str_eq_self}
use beacon_node.Tokens.{after_equals, before_equals}
use beacon_node.Crypto.{encode_hex, hex_digit}
use beacon_node.Tokens.Words.{IsLine, one_line, one_line-IsLine}
use beacon_node.Sync.Client.{scan_lines}
use beacon_node.Sync.Replies.{scan_lines-line}
use beacon_node.IdentityStore.{NodeIdentity, value_of_line, find_value, read_value, identity_text}

-- No byte is a '='.
abbrev IsKey : Bytes → Type 0
IsKey k = All (λ c. (c == b'=') ≡ false) k

after_equals-named : (k value : Bytes) → IsKey k → after_equals (k ++ b'=' ∷ value) ≡ some value
unfolding after_equals
after_equals-named [] value h = refl
after_equals-named (c ∷ k) value (hc, h) = ground (arith, hc, after_equals-named k value h)

before_equals-named : (k value : Bytes) → IsKey k → before_equals (k ++ b'=' ∷ value) ≡ k
unfolding before_equals
before_equals-named [] value h = refl
before_equals-named (c ∷ k) value (hc, h) = ground (arith, hc, before_equals-named k value h)

value_of_line-named :
    (key value : Bytes) → IsKey key → value_of_line key (key ++ b'=' ∷ value) ≡ some value
unfolding value_of_line
value_of_line-named key value h =
    ground (arith, after_equals-named key value h, before_equals-named key value h, str_eq_self key)

-- The lines of a text that starts with a named value.
first_line :
    (name value rest : Bytes)
    → IsLine name
    → IsLine value
    → scan_lines [] ((name ++ (value ++ b'\n' ∷ [])) ++ rest) ≡ (name ++ value) ∷ scan_lines [] rest
first_line name value rest hn hv =
    ap (scan_lines []) (
      append_assoc name (value ++ b'\n' ∷ []) rest
      ∙ ap (λ t. name ++ t) (append_assoc value (b'\n' ∷ []) rest)
      ∙ sym (append_assoc name value (b'\n' ∷ rest)))
    ∙ scan_lines-line (name ++ value) [] rest
        (All-append (λ c. (c == b'\n') ≡ false) name value hn hv)

find_value_first :
    (key line value : Bytes) (lines : List Bytes)
    → value_of_line key line ≡ some value
    → find_value key (line ∷ lines) ≡ value
unfolding find_value
find_value_first key line value lines h = ground (arith, h)

find_value_later :
    (key line : Bytes) (lines : List Bytes)
    → value_of_line key line ≡ none
    → find_value key (line ∷ lines) ≡ find_value key lines
unfolding find_value
find_value_later key line lines h = ground (arith, h)

module _ (identity : NodeIdentity) (line : IsLine identity.node_id) where
  -- The text behind the first line.
  later_lines : Bytes
  later_lines =
      (codes "public_key_hex=" ++ (identity.public_key_hex ++ b'\n' ∷ []))
      ++ (codes "private_key_path=" ++ (identity.private_key_path ++ b'\n' ∷ []))

  identity_lines :
      scan_lines [] (identity_text identity)
      ≡ (codes "node_id=" ++ identity.node_id) ∷ scan_lines [] later_lines
  unfolding identity_text later_lines one_line
  identity_lines =
      first_line (codes "node_id=") identity.node_id later_lines
        (one_line-IsLine (codes "node_id=") refl) line

  pub read_node_id : read_value (identity_text identity) (codes "node_id") ≡ identity.node_id
  unfolding read_value
  read_node_id =
      ap (find_value (codes "node_id")) identity_lines
      ∙ find_value_first (codes "node_id") (codes "node_id=" ++ identity.node_id) identity.node_id
          (scan_lines [] later_lines)
          (value_of_line-named (codes "node_id") identity.node_id
            (refl, (refl, (refl, (refl, (refl, (refl, (refl, tt))))))))

  pub read_public_key :
      IsLine identity.public_key_hex
      → read_value (identity_text identity) (codes "public_key_hex") ≡ identity.public_key_hex
  unfolding read_value value_of_line after_equals before_equals str_eq one_line later_lines
  read_public_key h =
      let key = codes "public_key_hex" in
      let private_line = codes "private_key_path=" ++ (identity.private_key_path ++ b'\n' ∷ []) in
      ap (find_value key) identity_lines
      ∙ find_value_later key (codes "node_id=" ++ identity.node_id) (scan_lines [] later_lines) refl
      ∙ ap (find_value key) (
          first_line (codes "public_key_hex=") identity.public_key_hex private_line
            (one_line-IsLine (codes "public_key_hex=") refl) h)
      ∙ find_value_first key (key ++ b'=' ∷ identity.public_key_hex) identity.public_key_hex
          (scan_lines [] private_line)
          (value_of_line-named key identity.public_key_hex (
            refl,
            (
              refl,
              (
                refl,
                (
                  refl,
                  (
                    refl,
                    (refl, (refl, (refl, (refl, (refl, (refl, (refl, (refl, (refl, tt))))))))),
                  ),
                ),
              ),
            ),
          ))

hex_digit_line : (n : ℕ) → (hex_digit n == b'\n') ≡ false
unfolding hex_digit
hex_digit_line n = ground arith

pub encode_hex-IsLine : (bs : Bytes) → IsLine (encode_hex bs)
unfolding encode_hex
encode_hex-IsLine [] = tt
encode_hex-IsLine (b ∷ bs) =
    (hex_digit_line (b / 16), (hex_digit_line (b % 16), encode_hex-IsLine bs))
