-- ===== src/Threads/Shutdown.antt =====
-- What `stop` and `start` of src/beacon_net/udp_handshake_responder.cpp rely on, and that `stop` returns.
use beacon_node.Base.{ℕ, suc, ◌+◌, ◌-◌, ◌≤◌, ◌<◌, ◌∙◌, true, false, ◌≡◌, refl, ◌⊎◌, inl, inr, arith}
use beacon_node.Threads.{
  WorkerAt, opening, testing, receiving, received, handling, returned, flagged, joining, Service,
  is_bound, Surroundings, WorkerStep, bind, bind_fails, leave, enter, receive, receive_fails, break,
  handle, repeat, send_fails, Arrival, arrive, CallerStep, start, stop, not_joinable, wake, join,
  Step, work, call, network, Reach, here, next,
}

-- A datagram that is sent to the bound socket arrives.
abbrev pub Delivers : Surroundings → Type 0
Delivers net = (s : Service) → is_bound s.worker ≡ true → net.delivers s ≡ true

-- What answers a datagram comes to its end.
abbrev pub Ends : Surroundings → Type 0
Ends net = (s : Service) → s.worker ≡ handling → net.ends s ≡ true

pub record Inv (s : Service) : Type 0 where
  pub idle : s.joinable ≡ false → s.worker ≡ returned
  pub stopped : s.caller ≡ flagged → s.stopping ≡ true
  pub stopped_joining : s.caller ≡ joining → s.stopping ≡ true
  pub joined : s.caller ≡ joining → s.joinable ≡ true
  pub woken : s.caller ≡ joining → s.worker ≡ receiving → 0 < s.arrived

WorkerStep-Inv : {net : Surroundings} {s t : Service} → WorkerStep net s t → Inv s → Inv t
WorkerStep-Inv (bind e) inv = ground arith
WorkerStep-Inv (bind_fails e) inv = ground arith
WorkerStep-Inv (leave e f) inv = ground arith
WorkerStep-Inv (enter e f) inv = ground arith
WorkerStep-Inv (receive n e f) inv = ground arith
WorkerStep-Inv (receive_fails e f) inv = ground arith
WorkerStep-Inv (break e f) inv = ground arith
WorkerStep-Inv (handle e f) inv = ground arith
WorkerStep-Inv (repeat e f) inv = ground arith
WorkerStep-Inv (send_fails e f) inv = ground arith

module _ {net : Surroundings} (delivers : Delivers net) where
  CallerStep-Inv : {s t : Service} → CallerStep net s t → Inv s → Inv t
  unfolding is_bound
  CallerStep-Inv (start e f) inv = ground arith
  CallerStep-Inv (stop e) inv = ground arith
  CallerStep-Inv (not_joinable e f) inv = ground arith
  CallerStep-Inv {s} (wake e f) inv = ground (arith, delivers s)
  CallerStep-Inv (join e f) inv = ground arith

  Step-Inv : {s t : Service} → Step net s t → Inv s → Inv t
  Step-Inv (work w) inv = WorkerStep-Inv w inv
  Step-Inv (call c) inv = CallerStep-Inv c inv
  Step-Inv (network (arrive e)) inv = ground arith

  pub Reach-Inv : {s : Service} → Reach net s → Inv s
  Reach-Inv here = ground arith
  Reach-Inv (next r st) = Step-Inv st (Reach-Inv r)

-- What happens while the caller is blocked in `worker_.join()`: the worker goes on, and datagrams arrive.
pub data Waits (net : Surroundings) (s : Service) : Service → Type 0 where
  begin : Waits net s s
  worked : {t u : Service} → Waits net s t → WorkerStep net t u → Waits net s u
  sent : {t u : Service} → Waits net s t → Arrival t u → Waits net s u

pub worker_steps : {net : Surroundings} {s t : Service} → Waits net s t → ℕ
worker_steps begin = 0
worker_steps (worked w st) = suc (worker_steps w)
worker_steps (sent w a) = worker_steps w

-- The statements that the worker makes at most before it returns, once `stopping_` is set.
steps_left : WorkerAt → ℕ
steps_left returned = 0
steps_left testing = 1
steps_left received = 1
steps_left _ = 2

-- A step of the worker while the caller waits for it.
WorkerStep-steps_left :
    {net : Surroundings} {s t : Service}
    → WorkerStep net s t
    → s.stopping ≡ true
    → (steps_left t.worker < steps_left s.worker) × (t.stopping ≡ true) × (t.caller ≡ s.caller)
unfolding steps_left
WorkerStep-steps_left (bind e) h = ground arith
WorkerStep-steps_left (bind_fails e) h = ground arith
WorkerStep-steps_left (leave e f) h = ground arith
WorkerStep-steps_left (enter e f) h = ground arith
WorkerStep-steps_left (receive n e f) h = ground arith
WorkerStep-steps_left (receive_fails e f) h = ground arith
WorkerStep-steps_left (break e f) h = ground arith
WorkerStep-steps_left (handle e f) h = ground arith
WorkerStep-steps_left (repeat e f) h = ground arith
WorkerStep-steps_left (send_fails e f) h = ground arith

Waits-steps_left :
    {net : Surroundings} {s t : Service} (w : Waits net s t)
    → s.stopping ≡ true
    → (worker_steps w + steps_left t.worker ≤ steps_left s.worker)
      × (t.stopping ≡ true)
      × (t.caller ≡ s.caller)
unfolding worker_steps
Waits-steps_left begin h = ground arith
Waits-steps_left (worked w st) h =
    let before = Waits-steps_left w h in
    let after = WorkerStep-steps_left st before.1 in (omega arith, after.1, after.2 ∙ before.2)
Waits-steps_left (sent w (arrive e)) h = Waits-steps_left w h

steps_left-le : (at : WorkerAt) → steps_left at ≤ 2
unfolding steps_left
steps_left-le returned = omega arith
steps_left-le testing = omega arith
steps_left-le received = omega arith
steps_left-le opening = omega arith
steps_left-le receiving = omega arith
steps_left-le handling = omega arith

Waits-Reach : {net : Surroundings} {s t : Service} → Waits net s t → Reach net s → Reach net t
Waits-Reach begin r = r
Waits-Reach (worked w st) r = next (Waits-Reach w r) (work st)
Waits-Reach (sent w a) r = next (Waits-Reach w r) (network a)

-- The next step of a worker that is told to stop.
next_statement :
    {net : Surroundings} (s : Service) (at : WorkerAt)
    → Ends net
    → s.worker ≡ at
    → s.stopping ≡ true
    → (at ≡ receiving → 0 < s.arrived)
    → (s.worker ≡ returned) ⊎ ((t : Service) × WorkerStep net s t)
next_statement s opening ends e h woken = inr (_, bind e)
next_statement s testing ends e h woken = inr (_, leave e h)
next_statement s receiving ends e h woken =
    inr (_, receive (s.arrived - 1) e (let w = woken refl in omega arith))
next_statement s received ends e h woken = inr (_, break e h)
next_statement s handling ends e h woken = inr (_, repeat e (ends s e))
next_statement s returned ends e h woken = inl e

-- If a datagram to the bound socket arrives and every answer ends, `stop` does not hang: from every state in
-- which it waits in `join`, whatever datagrams arrive meanwhile, the worker makes at most two more statements,
-- and it can always make one until it has returned: it is never blocked in `receive_from` without a datagram,
-- whether or not that call can report an error.
pub stop_returns :
    {net : Surroundings} {s t : Service}
    → Delivers net
    → Ends net
    → Reach net s
    → s.caller ≡ joining
    → (w : Waits net s t)
    → (worker_steps w ≤ 2) × ((t.worker ≡ returned) ⊎ ((u : Service) × WorkerStep net t u))
stop_returns {s} {t} delivers ends r waiting w =
    let now = Waits-steps_left w (Inv.stopped_joining (Reach-Inv delivers r) waiting) in
    let inv = Reach-Inv delivers (Waits-Reach w r) in
    (
      omega (arith, now.0, steps_left-le s.worker),
      next_statement t t.worker ends refl now.1 (λ e. Inv.woken inv (now.2 ∙ waiting) e),
    )

-- A step that is possible while the worker handles a datagram that has no end.
WorkerStep-handling :
    {net : Surroundings} {s t : Service}
    → WorkerStep net s t
    → s.worker ≡ handling
    → net.ends s ≡ false
    → ⊥
WorkerStep-handling (bind e) h f = cc
WorkerStep-handling (bind_fails e) h f = cc
WorkerStep-handling (leave e q) h f = cc
WorkerStep-handling (enter e q) h f = cc
WorkerStep-handling (receive n e q) h f = cc
WorkerStep-handling (receive_fails e q) h f = cc
WorkerStep-handling (break e q) h f = cc
WorkerStep-handling (handle e q) h f = cc
WorkerStep-handling (repeat e q) h f = cc
WorkerStep-handling (send_fails e q) h f = cc

-- The caller makes no statement in `join` before the worker has returned.
CallerStep-joining :
    {net : Surroundings} {s t : Service}
    → CallerStep net s t
    → s.caller ≡ joining
    → s.worker ≡ handling
    → ⊥
CallerStep-joining (start e f) c h = cc
CallerStep-joining (stop e) c h = cc
CallerStep-joining (not_joinable e f) c h = cc
CallerStep-joining (wake e f) c h = cc
CallerStep-joining (join e f) c h = cc

-- While what answers a datagram does not end, as a session whose client sends nothing, `stop` hangs: however long
-- it waits, and whatever arrives, the worker is where it was, and no statement of the caller is possible.
stop_hangs :
    {net : Surroundings} {s t : Service}
    → ((u : Service) → u.worker ≡ handling → net.ends u ≡ false)
    → s.caller ≡ joining
    → s.worker ≡ handling
    → Waits net s t
    → (t.worker ≡ handling) × (t.caller ≡ joining) × ((u : Service) → ¬ (CallerStep net t u))
stop_hangs silent c h begin = (h, c, λ u step. CallerStep-joining step c h)
stop_hangs silent c h (worked {t} w st) =
    let before = stop_hangs silent c h w in
    absurd (WorkerStep-handling st before.0 (silent t before.0))
stop_hangs silent c h (sent w (arrive e)) =
    let before = stop_hangs silent c h w in
    (before.0, before.1, λ u step. CallerStep-joining step before.1 before.0)
