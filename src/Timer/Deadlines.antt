-- ===== src/Timer/Deadlines.antt =====
-- busy_wait_timer.py: the callbacks stay in order of deadline, expiry splits them, and a cancelled
-- event is gone.
use redes_hamelin.Base.{
  ℕ, ◌+◌, ◌≤◌, ◌≡◌, ◌≢◌, refl, Bool, not, List, [], ◌∷◌, ◌++◌, map, arith, keep, All, ltb, All-keep,
  Has, Has-keep, of_keep, Has-cons, first, later, subst, inl, inr, Bool-cases, ◌↔◌,
}
use redes_hamelin.Event.{Event, EventName, get_name, name_eq, name_eq_iff}
use redes_hamelin.Timer.{
  Callback, Timer, insert_sorted, schedule, cancel, update_deadlines, is_due, is_pending,
}

abbrev pub IsSorted : List Callback → Type 0
IsSorted [] = Unit
IsSorted (x ∷ xs) = All (λ y. x.deadline ≤ y.deadline) xs × IsSorted xs

abbrev is_later : Callback → Callback → Bool
is_later a b = ltb b.deadline a.deadline

All-insert_sorted :
    (n : ℕ) (v : Callback) (xs : List Callback)
    → n ≤ v.deadline
    → All (λ y. n ≤ y.deadline) xs
    → All (λ y. n ≤ y.deadline) (insert_sorted v is_later xs)
unfolding insert_sorted
All-insert_sorted n v [] h a = (h, tt)
All-insert_sorted n v (x ∷ xs) h a = ground (arith, All-insert_sorted n v xs h a.1)

All-weaken :
    (m n : ℕ) (xs : List Callback)
    → m ≤ n
    → All (λ y. n ≤ y.deadline) xs
    → All (λ y. m ≤ y.deadline) xs
All-weaken m n [] h a = tt
All-weaken m n (x ∷ xs) h a = (omega arith, All-weaken m n xs h a.1)

insert_sorted-IsSorted :
    (v : Callback) (xs : List Callback) → IsSorted xs → IsSorted (insert_sorted v is_later xs)
unfolding insert_sorted
insert_sorted-IsSorted v [] s = (tt, tt)
insert_sorted-IsSorted v (x ∷ xs) s = ground (
  arith,
  insert_sorted-IsSorted v xs s.1,
  All-insert_sorted x.deadline v xs,
  All-weaken v.deadline x.deadline xs,
)

-- Scheduling keeps the callbacks in order of deadline.
pub schedule-IsSorted :
    (now delay : ℕ) (e : Event) (t : Timer)
    → IsSorted t.callbacks
    → IsSorted (schedule now delay e t).callbacks
unfolding schedule
schedule-IsSorted now delay e t s = insert_sorted-IsSorted _ t.callbacks s

keep_none_due :
    (now : ℕ) (xs : List Callback)
    → All (λ y. now + 1 ≤ y.deadline) xs
    → (keep (is_due now) xs ≡ []) × (keep (is_pending now) xs ≡ xs)
keep_none_due now [] a = (refl, refl)
keep_none_due now (x ∷ xs) a = ground (arith, keep_none_due now xs a.1)

keep_split :
    (now : ℕ) (xs : List Callback)
    → IsSorted xs
    → keep (is_due now) xs ++ keep (is_pending now) xs ≡ xs
keep_split now [] s = refl
keep_split now (x ∷ xs) s =
    ground (arith, keep_split now xs s.1, keep_none_due now xs, All-weaken (now + 1) x.deadline xs)

due_All : (now : ℕ) (xs : List Callback) → All (λ x. x.deadline ≤ now) (keep (is_due now) xs)
due_All now [] = tt
due_All now (x ∷ xs) = ground (arith, due_All now xs)

pending_All :
    (now : ℕ) (xs : List Callback) → All (λ x. now + 1 ≤ x.deadline) (keep (is_pending now) xs)
pending_All now [] = tt
pending_All now (x ∷ xs) = ground (arith, pending_All now xs)

-- An update puts the events of a front part of the callbacks on the queue, in order of deadline and
-- each once, and keeps exactly the rest: all of the front part is due, none of the rest is.
pub update_deadlines_splits :
    (now : ℕ) (t : Timer)
    → IsSorted t.callbacks
    → let (events, t') = update_deadlines now t in
      (front : List Callback) × (events ≡ map (λ x. x.event) front)
      × (front ++ t'.callbacks ≡ t.callbacks)
      × All (λ x. x.deadline ≤ now) front
      × All (λ x. now + 1 ≤ x.deadline) t'.callbacks
unfolding update_deadlines
update_deadlines_splits now t s = (
  keep (is_due now) t.callbacks,
  refl,
  keep_split now t.callbacks s,
  due_All now t.callbacks,
  pending_All now t.callbacks,
)

not_named_All :
    (name : EventName) (xs : List Callback)
    → All (λ x. get_name x.event ≢ name) (keep (λ x. not (name_eq (get_name x.event) name)) xs)
not_named_All name [] = tt
not_named_All name (x ∷ xs) =
    ground (arith, name_eq_iff (get_name x.event) name, not_named_All name xs)

keep-IsSorted : (p : Callback → Bool) (xs : List Callback) → IsSorted xs → IsSorted (keep p xs)
keep-IsSorted p [] s = tt
keep-IsSorted p (x ∷ xs) s =
    ground (arith, keep-IsSorted p xs s.1, All-keep (λ y. x.deadline ≤ y.deadline) p xs s.0)

kept_others :
    (name : EventName) (xs : List Callback) (x : Callback)
    → Has x (keep (λ y. not (name_eq (get_name y.event) name)) xs)
      ↔ (Has x xs × (get_name x.event ≢ name))
kept_others name xs x = (
  (λ m.
      let (there, h) = of_keep (λ (y : Callback). not (name_eq (get_name y.event) name)) xs m in
      (there, ground (arith, h, name_eq_iff (get_name x.event) name))),
  (λ (m, other).
      Has-keep (λ (y : Callback). not (name_eq (get_name y.event) name)) xs
        (ground (arith, other, name_eq_iff (get_name x.event) name)) m),
)

-- What is left of a callback by a cancel, and by scheduling another.
pub cancel_keeps :
    (name : EventName) (t : Timer) (x : Callback)
    → Has x (cancel name t).callbacks ↔ (Has x t.callbacks × (get_name x.event ≢ name))
unfolding cancel
cancel_keeps name t x = kept_others name t.callbacks x

Has-insert_sorted :
    {x : Callback} (v : Callback) (p : Callback → Callback → Bool) (xs : List Callback)
    → Has x xs
    → Has x (insert_sorted v p xs)
unfolding insert_sorted
Has-insert_sorted v p [] m = elim m [ ]
Has-insert_sorted {x} v p (y ∷ ys) m = elim (Bool-cases (p y v)) [
  | inl e ↦ rw (e, insert_sorted) (later m)
  | inr e ↦ elim (Has-cons m) [
    | inl here ↦ rw (e, insert_sorted) (subst (λ z. Has x (z ∷ insert_sorted v p ys)) here first)
    | inr on ↦ rw (e, insert_sorted) (later (Has-insert_sorted v p ys on))
  ]
]

inserted :
    (v : Callback) (p : Callback → Callback → Bool) (xs : List Callback)
    → Has v (insert_sorted v p xs)
unfolding insert_sorted
inserted v p [] = first
inserted v p (y ∷ ys) = elim (Bool-cases (p y v)) [
  | inl e ↦ rw (e, insert_sorted) first
  | inr e ↦ rw (e, insert_sorted) (later (inserted v p ys))
]

pub schedule_puts :
    (now delay : ℕ) (e : Event) (t : Timer)
    → Has (record { deadline = now + delay; event = e }) (schedule now delay e t).callbacks
unfolding schedule
schedule_puts now delay e t = inserted _ is_later t.callbacks

pub schedule_leaves :
    (now delay : ℕ) (e : Event) (t : Timer) {x : Callback}
    → Has x t.callbacks
    → Has x (schedule now delay e t).callbacks
unfolding schedule
schedule_leaves now delay e t m = Has-insert_sorted _ is_later t.callbacks m

-- After a cancel the callbacks are those that there were of other names, each one of them, and they
-- are still in order of deadline.
pub cancel_removes :
    (name : EventName) (t : Timer)
    → IsSorted t.callbacks
    → All (λ x. get_name x.event ≢ name) (cancel name t).callbacks
      × ((x : Callback)
          → Has x (cancel name t).callbacks ↔ (Has x t.callbacks × (get_name x.event ≢ name)))
      × IsSorted (cancel name t).callbacks
unfolding cancel
cancel_removes name t s = (
  not_named_All name t.callbacks,
  λ x. kept_others name t.callbacks x,
  keep-IsSorted _ t.callbacks s,
)
