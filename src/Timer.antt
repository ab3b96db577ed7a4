-- ===== src/Timer.antt =====
-- TP 1 RDTP/src/lib/time/busy_wait_timer.py and lib/utils/list.py. Times are whole milliseconds:
-- `defaultTimeout` 0.1 is 100 and RTO_SECONDS 0.05 is 50. Each StateContext has a timer of its own,
-- so an entry names no queue; `time.monotonic()` is an argument of the call.
pub mod Deadlines
pub mod Sleeping
use redes_hamelin.Base.{
  ℕ, ◌+◌, ◌-◌, Bool, not, List, [], ◌∷◌, map, min, ltb, leb, if◌then◌else◌, keep,
}
use redes_hamelin.Event.{Event, EventName, get_name, name_eq}

-- `List.insertSorted`: before the first value that the test puts behind the new one.
unfoldable pub insert_sorted {ℓ} : {A : Type ℓ} → A → (A → A → Bool) → List A → List A
insert_sorted v sorting [] = v ∷ []
insert_sorted v sorting (x ∷ xs) =
    if sorting x v then v ∷ x ∷ xs else x ∷ insert_sorted v sorting xs

pub record Callback : Type 0 where
  pub deadline : ℕ
  pub event : Event

pub record Timer : Type 0 where
  pub callbacks : List Callback
  pub timeout : ℕ

abbrev pub default_timeout : ℕ
default_timeout = 100

abbrev pub rto : ℕ
rto = 50

abbrev pub start : Timer
start = record { callbacks = []; timeout = default_timeout }

abbrev pub is_due : ℕ → Callback → Bool
is_due now x = leb x.deadline now

abbrev pub is_pending : ℕ → Callback → Bool
is_pending now x = ltb now x.deadline

sleep_time : ℕ → ℕ → List Callback → ℕ
sleep_time now timeout [] = default_timeout
sleep_time now timeout (x ∷ xs) = min timeout (x.deadline - now)

-- `updateDeadlines`: the events put on the queue, in order, and the new state.
pub update_deadlines : ℕ → Timer → List Event × Timer
unfolding sleep_time
update_deadlines now t =
    let rest = keep (is_pending now) t.callbacks in
    (
      map (λ x. x.event) (keep (is_due now) t.callbacks),
      record { callbacks = rest; timeout = sleep_time now t.timeout rest },
    )

unfoldable pub schedule : ℕ → ℕ → Event → Timer → Timer
unfolding insert_sorted
schedule now delay event t = record {
  callbacks =
      insert_sorted (record { deadline = now + delay; event = event })
        (λ a b. ltb b.deadline a.deadline) t.callbacks;
  timeout = min t.timeout delay;
}

pub cancel : EventName → Timer → Timer
cancel name t = record t {
  callbacks = keep (λ x. not (name_eq (get_name x.event) name)) t.callbacks;
}
