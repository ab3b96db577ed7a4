-- ===== src/Tests/Timers.antt =====
-- Timers with two timeouts.
use redes_hamelin.Base.{◌+◌, ◌≤◌, ◌≡◌, ◌≢◌, List, [], ◌∷◌, ◌++◌, map, All, Has, ◌↔◌, arith}
use redes_hamelin.Event.{segment_timeout, timeout_name, get_name}
use redes_hamelin.Timer.{Callback, Timer, schedule, cancel, update_deadlines}
use redes_hamelin.Timer.Deadlines.{
  IsSorted, schedule-IsSorted, update_deadlines_splits, cancel_removes,
}

abbrev callbacks : List Callback
callbacks =
    record { deadline = 50; event = segment_timeout 1 }
    ∷ record { deadline = 70; event = segment_timeout 2 }
    ∷ []

abbrev timer : Timer
timer = record { callbacks = callbacks; timeout = 50 }

timer-IsSorted : IsSorted timer.callbacks
timer-IsSorted = ((omega arith, tt), (tt, tt))

schedule-IsSorted_example : IsSorted (schedule 10 50 (segment_timeout 3) timer).callbacks
schedule-IsSorted_example = schedule-IsSorted 10 50 (segment_timeout 3) timer timer-IsSorted

update_deadlines_splits_example :
    let (events, t') = update_deadlines 60 timer in
    (front : List Callback) × (events ≡ map (λ x. x.event) front)
    × (front ++ t'.callbacks ≡ timer.callbacks)
    × All (λ x. x.deadline ≤ 60) front
    × All (λ x. 60 + 1 ≤ x.deadline) t'.callbacks
update_deadlines_splits_example = update_deadlines_splits 60 timer timer-IsSorted

cancel_removes_example :
    All (λ x. get_name x.event ≢ timeout_name 1) (cancel (timeout_name 1) timer).callbacks
    × ((x : Callback)
        → Has x (cancel (timeout_name 1) timer).callbacks
          ↔ (Has x timer.callbacks × (get_name x.event ≢ timeout_name 1)))
    × IsSorted (cancel (timeout_name 1) timer).callbacks
cancel_removes_example = cancel_removes (timeout_name 1) timer timer-IsSorted
