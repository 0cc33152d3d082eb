-- ===== src/ControlServer/Trusted.antt =====
-- What the loop of src/beacon_net/control_server.cpp lets its clients change, where signatures are required.
use beacon_node.Base.{
  ℕ, List, [], ◌∷◌, true, ◌≡◌, ◌⊎◌, inl, inr, refl, sym, subst, ap, ◌++◌, if◌then◌else◌, Option,
  none, some, Bool-cases,
}
use beacon_node.Base.Text.{Bytes}
use beacon_node.Types.{AgentRecord, TimePoint}
use beacon_node.Crypto.{Sodium, verify_agent_signature, valid}
use beacon_node.Identity.{IdentityService}
use beacon_node.Registry.{AgentRegistry, find}
use beacon_node.Registry.Lookup.{map_option}
use beacon_node.Registry.Refinement.{refreshed}
use beacon_node.Control.{Env}
use beacon_node.Control.Trust.{IsTrusted, handle_line-IsTrusted}
use beacon_node.ControlProtobuf.Dispatch.{handle_control_frame-IsTrusted}
use beacon_node.ControlServer.{Session, Served, Server, Connection, server_at, serve_session, run}
use beacon_node.ControlServer.Cases.{session_keeps}

-- The record is the given one, but for the expiry and the revision that heartbeats gave it.
pub data Renewals (r : AgentRecord) : AgentRecord → Type 0 where
  same : Renewals r r
  renewed : {x : AgentRecord} (t : TimePoint) (n : ℕ) → Renewals r x → Renewals r (refreshed t n x)

-- What a number of calls may make of what stands under the key `k`: nothing stands there after nothing, or
-- the record descends by heartbeats from the one before or from one of the key whose signature is verified.
abbrev pub IsAdmitted : Option Sodium → Bytes → Option AgentRecord → Option AgentRecord → Type 0
IsAdmitted sodium k before none = before ≡ none
IsAdmitted sodium k before (some x) =
    (r : AgentRecord) × Renewals r x
    × ((before ≡ some r) ⊎ ((r.agent_id ≡ k) × (verify_agent_signature sodium r ≡ valid)))

-- The connections before the first that finds `stopping_` set.
unfoldable pub served : List Connection → List Connection
served [] = []
served (c ∷ connections) = let rest = served connections in if c.stopping then [] else c ∷ rest

module _ (env : Env) (k : Bytes) where
  IsAdmitted-refl : (o : Option AgentRecord) → IsAdmitted env.sodium k o o
  IsAdmitted-refl none = refl
  IsAdmitted-refl (some x) = (x, same, inl refl)

  refreshed-IsAdmitted :
      (t : TimePoint) (n : ℕ) (before o : Option AgentRecord)
      → IsAdmitted env.sodium k before o
      → IsAdmitted env.sodium k before (map_option (refreshed t n) o)
  refreshed-IsAdmitted t n before none h = h
  refreshed-IsAdmitted t n before (some x) (r, d, origin) = (r, renewed t n d, origin)

  -- One more call.
  IsAdmitted-IsTrusted :
      (before between after : Option AgentRecord)
      → IsAdmitted env.sodium k before between
      → IsTrusted env k between after
      → IsAdmitted env.sodium k before after
  IsAdmitted-IsTrusted before between after h (inl e) =
      subst (IsAdmitted env.sodium k before) (sym e) h
  IsAdmitted-IsTrusted before between after h (inr (inl (r, e, own, verified))) =
      subst (IsAdmitted env.sodium k before) (sym e) (r, same, inr (own, verified))
  IsAdmitted-IsTrusted before between after h (inr (inr (t, n, e))) =
      subst (IsAdmitted env.sodium k before) (sym e) (refreshed-IsAdmitted t n before between h)

serve_session-IsTrusted :
    (server : Server) (g : AgentRegistry) (identity : Option IdentityService)
    (strict : server.protocol.trust.require_signatures ≡ true) (peeked : ℕ) (sent k : Bytes)
    → IsTrusted server.env k
        (find g k)
        (find (serve_session server g identity peeked sent).registry k)
serve_session-IsTrusted server g identity strict peeked sent k =
    session_keeps (λ h i l. IsTrusted server.env k (find g k) (find h k)) server g identity peeked
      sent (inl refl)
      (λ line. handle_line-IsTrusted server.env server.protocol g identity strict line k)
      (λ bytes.
        handle_control_frame-IsTrusted server.env server.moved server.protocol g identity strict
          server.codec bytes k)

module _ (server : Server) (strict : server.protocol.trust.require_signatures ≡ true)
    (k : Bytes) where
  from_here :
      (before : Option AgentRecord) (connections : List Connection) (g : AgentRegistry)
      (identity : Option IdentityService)
      → IsAdmitted server.env.sodium k before (find g k)
      → IsAdmitted server.env.sodium k before (find (run server g identity connections).registry k)
  unfolding run
  from_here before [] g identity h = h
  from_here before (c ∷ connections) g identity h =
      let at = server_at server c.now in
      let session = serve_session at g identity c.peeked c.sent in
      elim (Bool-cases c.stopping) [
        | inl e ↦ rw (e, run) h
        | inr e ↦
            rw (e, run)
              (from_here before connections session.registry session.identity (
                IsAdmitted-IsTrusted server.env k before (find g k) (find session.registry k) h
                  (serve_session-IsTrusted at g identity strict c.peeked c.sent k)))
      ]

  -- What a session adds to what the rest of the loop does.
  abbrev added : Session → Served → Served
  added session rest = record rest {
    answers = Session.written session ∷ Served.answers rest;
    notified = Session.notified session ++ Served.notified rest;
  }

  run-served :
      (connections : List Connection) (g : AgentRegistry) (identity : Option IdentityService)
      → run server g identity connections ≡ run server g identity (served connections)
  unfolding run served
  run-served [] g identity = refl
  run-served (c ∷ connections) g identity =
      let session = serve_session (server_at server c.now) g identity c.peeked c.sent in
      elim (Bool-cases c.stopping) [
        | inl e ↦ rw (e, run, served) refl
        | inr e ↦
            rw (e, run, served)
              (ap (added session) (run-served connections session.registry session.identity))
      ]

  -- Where signatures are required, whatever any number of clients send to the control port, as lines or as
  -- frames: what then stands under a key is the record that stood there before or one of that key whose
  -- signature is verified, but for the expiry and the revision that heartbeats gave it; and the loop does
  -- what it does to the connections before the first that finds `stopping_` set, so that this one and all
  -- behind it change nothing and get no answer.
  pub run-IsAdmitted :
      (g : AgentRegistry) (identity : Option IdentityService) (connections : List Connection)
      → IsAdmitted server.env.sodium k
          (find g k)
          (find (run server g identity connections).registry k)
        × (run server g identity connections ≡ run server g identity (served connections))
  run-IsAdmitted g identity connections = (
    from_here (find g k) connections g identity (IsAdmitted-refl server.env k (find g k)),
    run-served connections g identity,
  )
