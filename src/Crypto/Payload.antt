-- ===== src/Crypto/Payload.antt =====
-- What the signed payload pins down.
use beacon_node.Base.{
  ℕ, ◌<◌, ◌^◌, [], ◌∷◌, ◌++◌, ◌≡◌, ◌≢◌, refl, ap, ◌∙◌, sym, arith, length, length-append,
}
use beacon_node.Base.Text.{Bytes, codes}
use beacon_node.Types.{AgentRecord}
use beacon_node.Numbers.{to_string, parse_number}
use beacon_node.Numbers.RoundTrip.{parse_number-to_string}
use beacon_node.Crypto.{canonical_agent_payload, canonical_metadata}

abbrev tail_of : Bytes → Bytes
tail_of [] = []
tail_of (c ∷ s) = s

abbrev head_of : Bytes → ℕ
head_of [] = 0
head_of (c ∷ s) = c

-- The same text in front, or behind, can be taken away.
append_cancel_left : (s t u : Bytes) → s ++ t ≡ s ++ u → t ≡ u
append_cancel_left [] t u h = h
append_cancel_left (c ∷ s) t u h = append_cancel_left s t u (ap tail_of h)

append_cancel_right : (s t u : Bytes) → s ++ u ≡ t ++ u → s ≡ t
append_cancel_right [] [] u h = refl
append_cancel_right [] (c ∷ t) u h = absurd (omega (arith, ap length h, length-append (c ∷ t) u))
append_cancel_right (c ∷ s) [] u h = absurd (omega (arith, ap length h, length-append (c ∷ s) u))
append_cancel_right (c ∷ s) (d ∷ t) u h =
    ap (λ x. x ∷ s) (ap head_of h) ∙ ap (λ x. d ∷ x) (append_cancel_right s t u (ap tail_of h))

to_string_injective : (a b bound : ℕ) → a < bound → b < bound → to_string a ≡ to_string b → a ≡ b
to_string_injective a b bound ha hb e =
    let parsed =
      sym (parse_number-to_string bound 0 a ha)
      ∙ ap (parse_number bound 0) e
      ∙ parse_number-to_string bound 0 b hb in
    ground (arith, parsed)

-- A record whose revision is changed, and nothing else of it, has another payload: a signature of the
-- one is not a signature of the other. Revisions are 64-bit numbers.
pub canonical_agent_payload-revision :
    (r : AgentRecord) (revision : ℕ)
    → r.revision < 2 ^ 64
    → revision < 2 ^ 64
    → revision ≢ r.revision
    → canonical_agent_payload (record r { revision = revision }) ≢ canonical_agent_payload r
unfolding canonical_agent_payload
canonical_agent_payload-revision r revision h k ne e = ne (
    to_string_injective revision r.revision (2 ^ 64) k h (
      append_cancel_right _ _ (codes "\n" ++ canonical_metadata r.metadata) (
        append_cancel_left (codes "revision=") _ _ (
          append_cancel_left (codes "\n") _ _ (
            append_cancel_left r.endpoint _ _ (
              append_cancel_left (codes "endpoint=") _ _ (
                append_cancel_left (codes "\n") _ _ (
                  append_cancel_left r.node_id _ _ (
                    append_cancel_left (codes "node_id=") _ _ (
                      append_cancel_left (codes "\n") _ _ (
                        append_cancel_left r.agent_id _ _
                          (append_cancel_left (codes "agent_id=") _ _ e))))))))))))
