-- ===== src/Fin/Halting.antt =====
-- fin_state.py: what ends the state.
use redes_hamelin.Base.{
  ◌≡◌, refl, sym, ap, ◌⊎◌, inl, inr, true, Option, none, some, arith, Bool-cases,
}
use redes_hamelin.Segment.{Segment}
use redes_hamelin.Event.{Address, address_eq_iff, Event, segment, segment_timeout, abort}
use redes_hamelin.Context.{Context, halt, change_state, is_termination}
use redes_hamelin.Fin.{finished, known, send_fin_on, from_address, on_termination, on_timeout, step}

-- A segment that ends the loop comes from the disconnector's address.
from_address_halts :
    (seg : Segment) (addr : Option Address) (fin : Segment) (c : Context) {c' : Context}
    → from_address seg addr fin c ≡ finished c'
    → (c'.phase ≡ halt) × (addr ≡ some c.disconnector_address)
unfolding from_address change_state send_fin_on
from_address_halts seg none fin c h = ground arith
from_address_halts seg (some a) fin c {c'} h =
    ground (arith, address_eq_iff a c.disconnector_address)

on_termination_halts :
    (seg : Segment) (addr : Option Address) (fin : Segment) (c : Context) {c' : Context}
    → on_termination seg addr fin c ≡ finished c'
    → from_address seg addr fin c ≡ finished c'
unfolding on_termination
on_termination_halts seg addr fin c h = ground arith

-- The loop ends without an exception only in the halt state, and only by an AbortEvent or by a FIN
-- or error segment from the disconnector's address.
pub step_halts :
    (e : Event) (fin : Option Segment) (c : Context) {c' : Context}
    → step e fin c ≡ finished c'
    → (c'.phase ≡ halt)
      × ((e ≡ abort)
          ⊎ ((seg : Segment) × (e ≡ segment seg (some c.disconnector_address))
              × (is_termination seg ≡ true)))
unfolding step change_state on_timeout
step_halts abort fin c {c'} h =
    let made : change_state halt c ≡ c' = cc in (sym (ap (λ (x : Context). x.phase) made), inl refl)
step_halts (segment_timeout n) none c h = absurd (cc h)
step_halts (segment_timeout n) (some fin) c h = absurd (ground arith)
step_halts (segment seg addr) fin c h = elim (Bool-cases (is_termination seg)) [
  | inl ends ↦
      let (halted, from) =
        from_address_halts seg addr (known fin seg) c
          (on_termination_halts seg addr (known fin seg) c (rw ends at h)) in
      (halted, inr (seg, ap (λ a. segment seg a) from, ends))
  | inr other ↦ absurd (ground arith)
]
