-- ===== src/Threads.antt =====
-- The threads of src/beacon_net/udp_handshake_responder.cpp: the caller of `start` and `stop`, the worker that
-- `run` is, and the datagrams that arrive. src/beacon_net/control_server.cpp has the same `start`, `stop` and
-- loop, with connections for datagrams and a session where the responder answers; behind its second test
-- it goes back to the first, which ends the loop.
--
-- `start` and `stop` are called by one thread, which is between two of their statements, as is the worker
-- between two of `run`. `arrived` counts the datagrams that wait at the bound socket.
pub mod Shutdown
use beacon_node.Base.{ℕ, suc, ◌+◌, Bool, true, false, ◌≡◌, if◌then◌else◌}

-- Where the worker is: before the socket is bound, before `while (!stopping_)`, in `receive_from`, before
-- the second test, behind it, or returned from `run`.
pub data WorkerAt : Type 0 where
  opening testing receiving received handling returned : WorkerAt

-- Where the caller is: in neither method, behind `stopping_ = true`, or in `worker_.join()`.
pub data CallerAt : Type 0 where
  outside flagged joining : CallerAt

pub record Service : Type 0 where
  pub joinable : Bool
  pub stopping : Bool
  pub worker : WorkerAt
  pub caller : CallerAt
  pub arrived : ℕ

abbrev pub new_service : Service
new_service = record {
  joinable = false;
  stopping = false;
  worker = returned;
  caller = outside;
  arrived = 0;
}

-- The socket exists from the constructor call in `run` to its return.
unfoldable pub is_bound : WorkerAt → Bool
is_bound opening = false
is_bound returned = false
is_bound _ = true

-- Whether the datagram that `stop` sends in a state arrives, where an exception of the attempt is caught;
-- whether `receive_from` reports an error, where without one and without a datagram it blocks; and whether the
-- answer to a datagram is done: a call of `send_to` is, and a session is not while it waits for what its
-- client sends.
pub record Surroundings : Type 0 where
  pub delivers : Service → Bool
  pub fails : Service → Bool
  pub ends : Service → Bool

-- A statement of the worker. Every exception ends in the handler at the end of `run`.
pub data WorkerStep (net : Surroundings) (s : Service) : Service → Type 0 where
  bind : s.worker ≡ opening → WorkerStep net s (record s { worker = testing })
  bind_fails : s.worker ≡ opening → WorkerStep net s (record s { worker = returned })
  leave : s.worker ≡ testing → s.stopping ≡ true → WorkerStep net s (record s { worker = returned })
  enter :
      s.worker ≡ testing → s.stopping ≡ false → WorkerStep net s (record s { worker = receiving })
  receive :
      (n : ℕ)
      → s.worker ≡ receiving
      → s.arrived ≡ suc n
      → WorkerStep net s (record s { worker = received; arrived = n })
  receive_fails :
      s.worker ≡ receiving → net.fails s ≡ true → WorkerStep net s (record s { worker = returned })
  break :
      s.worker ≡ received → s.stopping ≡ true → WorkerStep net s (record s { worker = returned })
  handle :
      s.worker ≡ received → s.stopping ≡ false → WorkerStep net s (record s { worker = handling })
  repeat :
      s.worker ≡ handling → net.ends s ≡ true → WorkerStep net s (record s { worker = testing })
  send_fails :
      s.worker ≡ handling → net.ends s ≡ true → WorkerStep net s (record s { worker = returned })

-- A datagram that another host sends to the bound socket.
pub data Arrival (s : Service) : Service → Type 0 where
  arrive : is_bound s.worker ≡ true → Arrival s (record s { arrived = s.arrived + 1 })

-- A statement of the caller.
pub data CallerStep (net : Surroundings) (s : Service) : Service → Type 0 where
  start :
      s.caller ≡ outside
      → s.joinable ≡ false
      → CallerStep net s
          (record s { joinable = true; stopping = false; worker = opening; arrived = 0 })
  stop : s.caller ≡ outside → CallerStep net s (record s { stopping = true; caller = flagged })
  not_joinable :
      s.caller ≡ flagged → s.joinable ≡ false → CallerStep net s (record s { caller = outside })
  wake :
      s.caller ≡ flagged
      → s.joinable ≡ true
      → CallerStep net s (record s {
        caller = joining;
        arrived = if net.delivers s then s.arrived + 1 else s.arrived;
      })
  join :
      s.caller ≡ joining
      → s.worker ≡ returned
      → CallerStep net s (record s { caller = outside; joinable = false })

pub data Step (net : Surroundings) (s : Service) : Service → Type 0 where
  work : {t : Service} → WorkerStep net s t → Step net s t
  call : {t : Service} → CallerStep net s t → Step net s t
  network : {t : Service} → Arrival s t → Step net s t

-- The states of a service, from its construction on.
pub data Reach (net : Surroundings) : Service → Type 0 where
  here : Reach net new_service
  next : {s t : Service} → Reach net s → Step net s t → Reach net t
