-- ===== src/Timer/Sleeping.antt =====
-- TP 1 RDTP/src/lib/time/timer.py: the timer whose thread sleeps until the next deadline. A queue is
-- known by a number, and `time.monotonic()` is an argument of the call. `event.wait` returns when the
-- time is over or when `schedule` or `stop` set the event; how long it took is the caller's.
use redes_hamelin.Base.{
  ℕ, ◌+◌, ◌-◌, ◌<◌, ◌≡◌, Bool, true, false, Option, none, some, List, [], ◌∷◌, map, ltb, leb, keep,
  All, arith,
}
use redes_hamelin.Timer.{insert_sorted}

pub record Entry : Type 0 where
  pub deadline : ℕ
  pub queue : ℕ

pub record SleepingTimer : Type 0 where
  pub entries : List Entry
  pub is_running : Bool
  pub event_set : Bool

-- `Timer(loggerDetails)`
unfoldable pub new_timer : SleepingTimer
new_timer = record { entries = []; is_running = true; event_set = false }

-- `pickNextDeadline`: None where there is nothing to wait for.
unfoldable pub pick_next_deadline : ℕ → SleepingTimer → Option ℕ
pick_next_deadline now t = elim t.entries [ [] ↦ none | x ∷ xs ↦ some (x.deadline - now) ]

-- The entries that `updateDeadlines` notifies, and those that it keeps.
abbrev notified : ℕ → List Entry → List Entry
notified now xs = keep (λ x. leb x.deadline now) xs

abbrev kept : ℕ → List Entry → List Entry
kept now xs = keep (λ x. ltb now x.deadline) xs

-- `updateDeadlines`: the queues that get an item, in order.
unfoldable pub update_sleepers : ℕ → SleepingTimer → List ℕ × SleepingTimer
update_sleepers now t =
    (map (λ x. x.queue) (notified now t.entries), record t { entries = kept now t.entries })

-- `schedule`
unfoldable pub schedule_sleeper : ℕ → ℕ → ℕ → SleepingTimer → SleepingTimer
schedule_sleeper now delay queue t = record t {
  entries =
      insert_sorted (record { deadline = now + delay; queue = queue })
        (λ a b. ltb b.deadline a.deadline) t.entries;
  event_set = true;
}

unfoldable pub stop_timer : SleepingTimer → SleepingTimer
stop_timer t = record t { is_running = false; event_set = true }

-- A round of `run`, from the time at which it picks a deadline to the one at which `wait` returns:
-- how long the wait may last, and what is left.
unfoldable pub run_round : ℕ → ℕ → SleepingTimer → Option ℕ × List ℕ × SleepingTimer
unfolding update_sleepers
run_round picked woken t =
    let (queues, t') = update_sleepers woken (record t { event_set = false }) in
    (pick_next_deadline picked t, queues, t')

later_kept : (now : ℕ) (xs : List Entry) → All (λ x. now < x.deadline) (kept now xs)
later_kept now [] = tt
later_kept now (x ∷ xs) = ground (arith, later_kept now xs)

-- Where the next deadline of a timer is waited for to its end, the round notifies the queue of the
-- first entry before all others, and what it keeps is due later.
run_round-wakes :
    (picked : ℕ) (x : Entry) (xs : List Entry) (t : SleepingTimer)
    → t.entries ≡ x ∷ xs
    → (wait : ℕ) × (queues : List ℕ) × (t' : SleepingTimer) × (run_round picked (picked + wait) t
        ≡ (some wait, x.queue ∷ queues, t'))
      × All (λ y. picked + wait < y.deadline) t'.entries
unfolding run_round update_sleepers pick_next_deadline
run_round-wakes picked x xs t e =
    let wait = x.deadline - picked in
    (
      wait,
      map (λ y. y.queue) (notified (picked + wait) xs),
      record t { entries = kept (picked + wait) (x ∷ xs); event_set = false },
      ground (arith, e),
      later_kept (picked + wait) (x ∷ xs),
    )
