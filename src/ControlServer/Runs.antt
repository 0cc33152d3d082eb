-- ===== src/ControlServer/Runs.antt =====
-- The sessions that the loop of src/beacon_net/control_server.cpp serves, one after the other, as a run of
-- the steps of a node.
use beacon_node.Base.{ℕ, List, [], ◌∷◌, inl, inr, sym, subst, some, Bool-cases, Option, none}
use beacon_node.Base.Text.{Bytes}
use beacon_node.Registry.{AgentRegistry}
use beacon_node.Identity.{IdentityService}
use beacon_node.ControlServer.{Server, Connection, server_at, serve_session, run}
use beacon_node.ControlServer.Cases.{session_keeps}
use beacon_node.Node.{Node, Reach}
use beacon_node.Node.Handlers.{
  settle, settle-here, settle_trans, handle_line-Reach, HasService, HasService-service,
}
use beacon_node.Node.Frames.{handle_control_frame-Reach}
use beacon_node.Node.Service.{serve_session-HasService}

-- What a session does to a node is a run of steps.
serve_session-Reach :
    (server : Server) (n : Node) (peeked : ℕ) (sent : Bytes)
    → let s = serve_session server n.registry (some n.identity) peeked sent in
      Reach server.env.fresh server.env.sodium n (settle n s.registry s.identity s.notified)
serve_session-Reach server n peeked sent =
    let fresh = server.env.fresh in
    let sodium = server.env.sodium in
    session_keeps (λ g i l. Reach fresh sodium n (settle n g i l)) server n.registry
      (some n.identity) peeked sent (settle-here fresh sodium n)
      (handle_line-Reach server.env server.protocol n)
      (handle_control_frame-Reach server.env server.moved server.protocol n server.codec)

run-HasService :
    (server : Server) (connections : List Connection) (g : AgentRegistry)
    (i : Option IdentityService)
    → HasService i
    → HasService (run server g i connections).identity
unfolding run
run-HasService server [] g i h = h
run-HasService server (c ∷ connections) g none h = absurd h
run-HasService server (c ∷ connections) g (some s) h =
    let session = serve_session (server_at server c.now) g (some s) c.peeked c.sent in
    elim (Bool-cases c.stopping) [
      | inl e ↦ rw (e, run) tt
      | inr e ↦
          rw (e, run)
            (run-HasService server connections session.registry session.identity
              (serve_session-HasService (server_at server c.now) g s c.peeked c.sent))
    ]

-- Whatever clients connect and whatever they send, what the loop of the control server does to a node, up
-- to the connection that finds `stopping_` set or to the last one, is a run of steps.
run-Reach :
    (server : Server) (connections : List Connection) (n : Node)
    → let s = run server n.registry (some n.identity) connections in
      Reach server.env.fresh server.env.sodium n (settle n s.registry s.identity s.notified)
unfolding run
run-Reach server [] n = settle-here server.env.fresh server.env.sodium n
run-Reach server (c ∷ connections) n =
    let fresh = server.env.fresh in
    let sodium = server.env.sodium in
    let session =
      serve_session (server_at server c.now) n.registry (some n.identity) c.peeked c.sent in
    let has =
      serve_session-HasService (server_at server c.now) n.registry n.identity c.peeked c.sent in
    let mid = settle n session.registry session.identity session.notified in
    let rest = run server session.registry session.identity connections in
    elim (Bool-cases c.stopping) [
      | inl e ↦ rw (e, run) (settle-here fresh sodium n)
      | inr e ↦
          rw (e, run)
            (settle_trans fresh sodium n session.registry rest.registry session.identity
              rest.identity session.notified rest.notified
              (run-HasService server connections session.registry session.identity has)
              (serve_session-Reach (server_at server c.now) n c.peeked c.sent)
              (subst
                (λ i.
                  let s = run server session.registry i connections in
                  Reach fresh sodium mid (settle mid s.registry s.identity s.notified))
                (sym (HasService-service session.identity n.identity has))
                (run-Reach server connections mid)))
    ]
