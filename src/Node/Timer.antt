-- ===== src/Node/Timer.antt =====
-- The rounds of src/beacon_net/gossip_service.cpp, one after the other, as a run of the steps of a node.
use beacon_node.Base.{List, [], ◌∷◌, ◌++◌, inl, inr, refl, sym, subst, some, Bool-cases}
use beacon_node.Types.{TimePoint}
use beacon_node.Control.{Env}
use beacon_node.Gossip.Service.{Network, GossipService}
use beacon_node.Gossip.Timer.{Schedule, goes_on, at_rest, run}
use beacon_node.Node.{Node}
use beacon_node.Node.Handlers.{settle, settle_trans, HasService-service}
use beacon_node.Node.Rounds.{Completes, nothing_done, perform_gossip_round-Completes}

module _ {W : Type 0} (net : Network W) (service : GossipService) (env : Env) where
  abbrev at_time : TimePoint → Env
  at_time now = record env { now = now }

  -- The worker's rounds return, whatever the peers answer, whatever peers there are at each round and however
  -- the indices are shuffled, up to the round before which `stopping_` is set or the timer is cancelled or
  -- fails; and what they do to a node is a run of steps.
  pub run-Completes :
      (schedules : List Schedule) (n : Node) (w : W)
      → Completes net service env n (run net service env n.registry (some n.identity) w schedules)
  unfolding run at_rest
  run-Completes [] n w = nothing_done net service env n w
  run-Completes (s ∷ schedules) n w = elim (Bool-cases s.stopping) [
    | inl e ↦ rw (e, run) (nothing_done net service env n w)
    | inr e ↦ elim (Bool-cases (goes_on s)) [
      | inr over ↦ rw (e, over, run) (nothing_done net service env n w)
      | inl on ↦
          (let round = perform_gossip_round-Completes net service (at_time s.now) s.peers n w in
            let first = round.outcome in
            let mid = settle n first.registry first.identity first.notified in
            let rest =
              subst
                (λ j.
                  Completes net service env mid
                    (run net service env first.registry j first.network schedules))
                (sym (HasService-service first.identity n.identity round.has))
                (run-Completes schedules mid first.network) in
            record {
              outcome = record rest.outcome { notified = first.notified ++ rest.outcome.notified };
              returns = rw (e, on, run) (rw (round.returns, run) (rw rest.returns refl));
              has = rest.has;
              reached =
                  settle_trans env.fresh env.sodium n first.registry rest.outcome.registry
                    first.identity rest.outcome.identity first.notified rest.outcome.notified
                    rest.has round.reached rest.reached;
            })
    ]
  ]
