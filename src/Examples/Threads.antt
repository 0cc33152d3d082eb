-- ===== src/Examples/Threads.antt =====
-- A responder that waits for a datagram when it is told to stop.
use beacon_node.Base.{◌≡◌, ◌≤◌, ◌⊎◌, refl, true, false}
use beacon_node.Threads.{
  Surroundings, Service, receiving, received, joining, returned, WorkerStep, bind, enter, receive,
  start, stop, wake, work, call, Reach, here, next,
}
use beacon_node.Threads.Shutdown.{Waits, begin, worked, worker_steps, stop_returns}

abbrev arrives : Surroundings
arrives = record { delivers = λ s. true; fails = λ s. false; ends = λ s. true }

abbrev waiting : Service
waiting = record {
  joinable = true;
  stopping = true;
  worker = receiving;
  caller = joining;
  arrived = 1;
}

waiting-Reach : Reach arrives waiting
waiting-Reach =
    next
      (next
        (next (next (next here (call (start refl refl))) (work (bind refl)))
          (work (enter refl refl)))
        (call (stop refl)))
      (call (wake refl refl))

abbrev woken : Service
woken = record waiting { worker = received; arrived = 0 }

woken_once : Waits arrives waiting woken
woken_once = worked begin (receive 0 refl refl)

stop_returns_example :
    (worker_steps woken_once ≤ 2)
    × ((woken.worker ≡ returned) ⊎ ((u : Service) × WorkerStep arrives woken u))
stop_returns_example =
    stop_returns {net = arrives} (λ s bound. refl) (λ s at. refl) waiting-Reach refl woken_once
