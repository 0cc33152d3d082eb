-- ===== src/ControlProtobuf/Fields.antt =====
-- A record as a message and back.
use beacon_node.Base.{
  [], ◌∷◌, ◌++◌, ◌≡◌, ap, ◌∙◌, sym, subst, All, append_assoc, append-nil, arith, ◌+◌,
}
use beacon_node.Base.Text.{Bytes, IsByte}
use beacon_node.Metadata.{Metadata, IsOrdered, set_last}
use beacon_node.Config.{LifecycleConfig}
use beacon_node.Types.{AgentRecord, TimePoint}
use beacon_node.Crypto.{encode_hex}
use beacon_node.Crypto.Hex.{decode_hex-encode_hex}
use beacon_node.Control.RoundTrip.{ordered_before}
use beacon_node.ControlProtobuf.{add_entries, from_proto, to_proto}

add_entries_ordered : (done m : Metadata) → IsOrdered (done ++ m) → add_entries done m ≡ done ++ m
unfolding add_entries
add_entries_ordered done [] o = sym (append-nil done)
add_entries_ordered done ((k, v) ∷ m) o =
    ap (λ t. add_entries t m) (set_last k v done (ordered_before done k v m o))
    ∙ add_entries_ordered (done ++ (k, v) ∷ []) m
        (subst IsOrdered (sym (append_assoc done ((k, v) ∷ []) m)) o)
    ∙ append_assoc done ((k, v) ∷ []) m

-- A record whose key and signature are hexadecimal texts of bytes, and whose metadata are in the order of
-- their keys, comes back from its message with every field, and with the expiry that the receiver gives it.
pub from_proto-to_proto :
    (now : TimePoint) (lifecycle : LifecycleConfig) (r : AgentRecord) (public_key signature : Bytes)
    → All IsByte public_key
    → All IsByte signature
    → r.public_key_hex ≡ encode_hex public_key
    → r.signature_hex ≡ encode_hex signature
    → IsOrdered r.metadata
    → from_proto now lifecycle (to_proto r)
      ≡ record r { expires_at = now + lifecycle.heartbeat_ttl }
unfolding from_proto to_proto
from_proto-to_proto now lifecycle r pk sig hpk hsig epk esig o = ground (
  arith,
  add_entries_ordered [] r.metadata o,
  epk,
  esig,
  decode_hex-encode_hex pk hpk,
  decode_hex-encode_hex sig hsig,
)
