-- ===== src/Gossip/Timer.antt =====
-- The timer of src/beacon_net/gossip_service.cpp: `run`, and `schedule_round` with the handler that it
-- hands to `async_wait`.
use beacon_node.Base.{List, [], ◌∷◌, ◌++◌, Bool, true, false, Option, none, some, if◌then◌else◌}
use beacon_node.Types.{TimePoint}
use beacon_node.Identity.{IdentityService}
use beacon_node.Registry.{AgentRegistry}
use beacon_node.Control.{Env}
use beacon_node.Gossip.{GossipPeer}
use beacon_node.Gossip.Service.{Network, GossipService, RoundOutcome, perform_gossip_round}

-- The error code of the handler: none, `operation_aborted`, or another one.
pub data Waited : Type 0 where
  expired aborted failed : Waited

-- A call of `schedule_round` and of its handler: whether `stopping_` is set at each of the two, the error
-- code, and the clock and the peers at the time of the round.
pub record Schedule : Type 0 where
  pub stopping : Bool
  pub waited : Waited
  pub stopping_then : Bool
  pub now : TimePoint
  pub peers : List GossipPeer

-- `ec == boost::asio::error::operation_aborted || stopping_`, and `!ec` behind it
unfoldable pub goes_on : Schedule → Bool
goes_on s = elim s.waited [
  | expired ↦ if s.stopping_then then false else true
  | aborted ↦ false
  | failed ↦ false
]

module _ {W : Type 0} (net : Network W) (service : GossipService) (env : Env) where
  unfoldable pub at_rest : AgentRegistry → Option IdentityService → W → RoundOutcome W
  at_rest g identity w = record { registry = g; identity = identity; network = w; notified = [] }

  -- What the worker does up to the last of the calls; none where a round reads past its peers. A handler that
  -- does not schedule the next round leaves `context.run()` without work, so that it returns.
  unfoldable pub run :
      AgentRegistry → Option IdentityService → W → List Schedule → Option (RoundOutcome W)
  unfolding goes_on at_rest
  run g identity w [] = some (at_rest g identity w)
  run g identity w (s ∷ schedules) =
      if s.stopping
      then some (at_rest g identity w)
      else if goes_on s
      then elim (perform_gossip_round net service (record env { now = Schedule.now s })
          (Schedule.peers s) g identity w) [
            | none ↦ none
            | some round ↦
                elim (run (RoundOutcome.registry round) (RoundOutcome.identity round)
                  (RoundOutcome.network round) schedules) [
                    | none ↦ none
                    | some rest ↦ some (record rest {
                      notified = RoundOutcome.notified round ++ RoundOutcome.notified rest;
                    })
                  ]
          ]
      else some (at_rest g identity w)
