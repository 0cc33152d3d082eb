-- ===== src/Engine/Entries.antt =====
-- A record that src/beacon_engine/main.cpp writes to the log, as a start reads it back.
use beacon_node.Base.{[], ◌≡◌, All, arith}
use beacon_node.Base.Text.{Bytes, IsByte}
use beacon_node.Types.{AgentRecord, TimePoint}
use beacon_node.Crypto.{encode_hex}
use beacon_node.Crypto.Hex.{decode_hex-encode_hex}
use beacon_node.Engine.Restart.{entry_of, record_of}

-- A record whose key and signature are hexadecimal texts of bytes comes back from its log entry with every
-- field but the metadata, which is empty, and the expiry, which is the time of the start.
pub record_of-entry_of :
    (now : TimePoint) (r : AgentRecord) (public_key signature : Bytes)
    → All IsByte public_key
    → All IsByte signature
    → r.public_key_hex ≡ encode_hex public_key
    → r.signature_hex ≡ encode_hex signature
    → record_of now (entry_of r) ≡ record r { metadata = []; expires_at = now }
unfolding record_of entry_of
record_of-entry_of now r public_key signature hp hs ep es =
    ground (arith, ep, es, decode_hex-encode_hex public_key hp, decode_hex-encode_hex signature hs)
