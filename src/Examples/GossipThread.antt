-- ===== src/Examples/GossipThread.antt =====
-- A gossip service that is told to stop while its timer is set.
use beacon_node.Base.{Bool, ◌≡◌, ◌≤◌, ◌⊎◌, refl, true}
use beacon_node.Gossip.Thread.{
  pending, expiring, finished, blocked, GossipThread, TimerStep, schedule, expire, start, stop,
  begin_join, Lives, built, worked, called,
}
use beacon_node.Gossip.Thread.Stopping.{Blocks, begin, goes_on, statements, stop_ends_rounds}

abbrev ended : GossipThread → Bool
ended s = true

abbrev stopped : GossipThread
stopped = record { joinable = true; stopping = true; timer = pending; caller = blocked; rounds = 0 }

stopped-Lives : Lives ended stopped
stopped-Lives =
    called (called (worked (called built (start refl refl)) (schedule refl refl)) (stop refl))
      (begin_join refl refl)

abbrev expired : GossipThread
expired = record stopped { timer = expiring }

expired_once : Blocks ended stopped expired
expired_once = goes_on begin (expire refl)

stop_ends_rounds_example :
    (statements expired_once ≤ 2)
    × (expired.rounds ≡ stopped.rounds)
    × ((expired.timer ≡ finished) ⊎ ((u : GossipThread) × TimerStep ended expired u))
stop_ends_rounds_example =
    stop_ends_rounds {ends = ended} (λ u at. refl) stopped-Lives refl expired_once
