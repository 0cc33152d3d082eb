-- ===== src/Gossip/Thread/Stopping.antt =====
-- What the worker of src/beacon_net/gossip_service.cpp still does while `stop` waits for it.
use beacon_node.Base.{
  ℕ, suc, ◌+◌, ◌≤◌, ◌<◌, ◌∙◌, Bool, true, false, ◌≡◌, refl, ◌⊎◌, inl, inr, arith,
}
use beacon_node.Gossip.Thread.{
  TimerAt, scheduling, pending, expiring, gossiping, finished, told, blocked, GossipThread,
  TimerStep, schedule_stops, schedule, schedule_throws, expire, handler_stops, handler_fails,
  gossip, again, round_throws, StopStep, start, start_again, stop, not_joinable, begin_join, join,
  Lives, built, worked, called,
}

-- While the caller is between `stopping_ = true` and the end of `join`, nobody resets the flag; and a thread
-- that is not joinable has returned.
pub record IsConsistent (s : GossipThread) : Type 0 where
  pub told_stopping : s.caller ≡ told → s.stopping ≡ true
  pub blocked_stopping : s.caller ≡ blocked → s.stopping ≡ true
  pub not_running : s.joinable ≡ false → s.timer ≡ finished

TimerStep-IsConsistent :
    {ends : GossipThread → Bool} {s t : GossipThread}
    → TimerStep ends s t
    → IsConsistent s
    → IsConsistent t
TimerStep-IsConsistent (schedule_stops e f) inv = ground arith
TimerStep-IsConsistent (schedule e f) inv = ground arith
TimerStep-IsConsistent (schedule_throws e) inv = ground arith
TimerStep-IsConsistent (expire e) inv = ground arith
TimerStep-IsConsistent (handler_stops e f) inv = ground arith
TimerStep-IsConsistent (handler_fails e) inv = ground arith
TimerStep-IsConsistent (gossip e f) inv = ground arith
TimerStep-IsConsistent (again e f) inv = ground arith
TimerStep-IsConsistent (round_throws e f) inv = ground arith

StopStep-IsConsistent : {s t : GossipThread} → StopStep s t → IsConsistent s → IsConsistent t
StopStep-IsConsistent (start e f) inv = ground arith
StopStep-IsConsistent (start_again e f) inv = inv
StopStep-IsConsistent (stop e) inv = ground arith
StopStep-IsConsistent (not_joinable e f) inv = ground arith
StopStep-IsConsistent (begin_join e f) inv = ground arith
StopStep-IsConsistent (join e f) inv = ground arith

pub Lives-IsConsistent :
    {ends : GossipThread → Bool} {s : GossipThread} → Lives ends s → IsConsistent s
Lives-IsConsistent built = ground arith
Lives-IsConsistent (worked l st) = TimerStep-IsConsistent st (Lives-IsConsistent l)
Lives-IsConsistent (called l st) = StopStep-IsConsistent st (Lives-IsConsistent l)

-- What the worker does while the caller is blocked in `worker_.join()`.
pub data Blocks (ends : GossipThread → Bool) (s : GossipThread) : GossipThread → Type 0 where
  begin : Blocks ends s s
  goes_on : {t u : GossipThread} → Blocks ends s t → TimerStep ends t u → Blocks ends s u

pub statements : {ends : GossipThread → Bool} {s t : GossipThread} → Blocks ends s t → ℕ
statements begin = 0
statements (goes_on w st) = suc (statements w)

-- The statements that the worker makes at most before it returns, once `stopping_` is set.
statements_left : TimerAt → ℕ
statements_left finished = 0
statements_left scheduling = 1
statements_left expiring = 1
statements_left _ = 2

TimerStep-stopping :
    {ends : GossipThread → Bool} {s t : GossipThread}
    → TimerStep ends s t
    → s.stopping ≡ true
    → (statements_left t.timer < statements_left s.timer)
      × (t.stopping ≡ true)
      × (t.rounds ≡ s.rounds)
unfolding statements_left
TimerStep-stopping (schedule_stops e f) h = ground arith
TimerStep-stopping (schedule e f) h = ground arith
TimerStep-stopping (schedule_throws e) h = ground arith
TimerStep-stopping (expire e) h = ground arith
TimerStep-stopping (handler_stops e f) h = ground arith
TimerStep-stopping (handler_fails e) h = ground arith
TimerStep-stopping (gossip e f) h = ground arith
TimerStep-stopping (again e f) h = ground arith
TimerStep-stopping (round_throws e f) h = ground arith

Blocks-stopping :
    {ends : GossipThread → Bool} {s t : GossipThread} (w : Blocks ends s t)
    → s.stopping ≡ true
    → (statements w + statements_left t.timer ≤ statements_left s.timer)
      × (t.stopping ≡ true)
      × (t.rounds ≡ s.rounds)
unfolding statements
Blocks-stopping begin h = ground arith
Blocks-stopping (goes_on w st) h =
    let before = Blocks-stopping w h in
    let after = TimerStep-stopping st before.1 in (omega arith, after.1, after.2 ∙ before.2)

statements_left-le : (at : TimerAt) → statements_left at ≤ 2
unfolding statements_left
statements_left-le finished = omega arith
statements_left-le scheduling = omega arith
statements_left-le expiring = omega arith
statements_left-le pending = omega arith
statements_left-le gossiping = omega arith

-- The next statement of a worker that is told to stop.
next_statement :
    {ends : GossipThread → Bool} (s : GossipThread) (at : TimerAt)
    → ((u : GossipThread) → u.timer ≡ gossiping → ends u ≡ true)
    → s.timer ≡ at
    → s.stopping ≡ true
    → (s.timer ≡ finished) ⊎ ((t : GossipThread) × TimerStep ends s t)
next_statement s scheduling all e h = inr (_, schedule_stops e h)
next_statement s pending all e h = inr (_, expire e)
next_statement s expiring all e h = inr (_, handler_stops e h)
next_statement s gossiping all e h = inr (_, again e (all s e))
next_statement s finished all e h = inl e

-- If every round comes to its end, `GossipService::stop` does not hang and no round begins behind it: while it
-- waits in `join`, the worker makes at most two more statements, none of which begins a round, and it can
-- always make one until it has returned.
pub stop_ends_rounds :
    {ends : GossipThread → Bool} {s t : GossipThread}
    → ((u : GossipThread) → u.timer ≡ gossiping → ends u ≡ true)
    → Lives ends s
    → s.caller ≡ blocked
    → (w : Blocks ends s t)
    → (statements w ≤ 2)
      × (t.rounds ≡ s.rounds)
      × ((t.timer ≡ finished) ⊎ ((u : GossipThread) × TimerStep ends t u))
stop_ends_rounds {s} {t} all l e w =
    let now = Blocks-stopping w (IsConsistent.blocked_stopping (Lives-IsConsistent l) e) in
    (
      omega (arith, now.0, statements_left-le s.timer),
      now.2,
      next_statement t t.timer all refl now.1,
    )
