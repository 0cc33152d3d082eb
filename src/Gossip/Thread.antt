-- ===== src/Gossip/Thread.antt =====
-- The threads of src/beacon_net/gossip_service.cpp: the caller of `start` and `stop`, which the destructor
-- calls too, and the worker that `run` is, with the timer of `schedule_round` and its handler.
--
-- `start` and `stop` are called by one thread, which is between two of their statements, as is the worker
-- between two of its own. A read or a write of the atomic `stopping_` is a statement. `rounds` counts the
-- calls of `perform_gossip_round`.
pub mod Stopping
use beacon_node.Base.{ℕ, ◌+◌, Bool, true, false, ◌≡◌}

-- Where the worker is: before the test of `schedule_round`, in `context.run()` with the timer set, in the
-- handler before its test, in `perform_gossip_round`, or returned from `run`.
pub data TimerAt : Type 0 where
  scheduling pending expiring gossiping finished : TimerAt

-- Where the caller is: in neither method, behind `stopping_ = true`, or in `worker_.join()`.
pub data StopAt : Type 0 where
  idle told blocked : StopAt

pub record GossipThread : Type 0 where
  pub joinable : Bool
  pub stopping : Bool
  pub timer : TimerAt
  pub caller : StopAt
  pub rounds : ℕ

abbrev pub new_thread : GossipThread
new_thread = record {
  joinable = false;
  stopping = false;
  timer = finished;
  caller = idle;
  rounds = 0;
}

-- A statement of the worker, where `ends` says whether a round comes to its end. A handler that does not
-- schedule the next round leaves `context.run()` without work, and every exception ends in the handler
-- at the end of `run`.
pub data TimerStep (ends : GossipThread → Bool) (s : GossipThread) : GossipThread → Type 0 where
  schedule_stops :
      s.timer ≡ scheduling → s.stopping ≡ true → TimerStep ends s (record s { timer = finished })
  schedule :
      s.timer ≡ scheduling → s.stopping ≡ false → TimerStep ends s (record s { timer = pending })
  schedule_throws : s.timer ≡ scheduling → TimerStep ends s (record s { timer = finished })
  expire : s.timer ≡ pending → TimerStep ends s (record s { timer = expiring })
  handler_stops :
      s.timer ≡ expiring → s.stopping ≡ true → TimerStep ends s (record s { timer = finished })
  handler_fails : s.timer ≡ expiring → TimerStep ends s (record s { timer = finished })
  gossip :
      s.timer ≡ expiring
      → s.stopping ≡ false
      → TimerStep ends s (record s { timer = gossiping; rounds = s.rounds + 1 })
  again : s.timer ≡ gossiping → ends s ≡ true → TimerStep ends s (record s { timer = scheduling })
  round_throws :
      s.timer ≡ gossiping → ends s ≡ true → TimerStep ends s (record s { timer = finished })

-- A statement of the caller.
pub data StopStep (s : GossipThread) : GossipThread → Type 0 where
  start :
      s.caller ≡ idle
      → s.joinable ≡ false
      → StopStep s (record s { joinable = true; stopping = false; timer = scheduling })
  start_again : s.caller ≡ idle → s.joinable ≡ true → StopStep s s
  stop : s.caller ≡ idle → StopStep s (record s { stopping = true; caller = told })
  not_joinable : s.caller ≡ told → s.joinable ≡ false → StopStep s (record s { caller = idle })
  begin_join : s.caller ≡ told → s.joinable ≡ true → StopStep s (record s { caller = blocked })
  join :
      s.caller ≡ blocked
      → s.timer ≡ finished
      → StopStep s (record s { caller = idle; joinable = false })

-- The states of a service, from its construction on.
pub data Lives (ends : GossipThread → Bool) : GossipThread → Type 0 where
  built : Lives ends new_thread
  worked : {s t : GossipThread} → Lives ends s → TimerStep ends s t → Lives ends t
  called : {s t : GossipThread} → Lives ends s → StopStep s t → Lives ends t
