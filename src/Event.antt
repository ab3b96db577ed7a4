-- ===== src/Event.antt =====
-- TP 1 RDTP/src/lib/event: the events that a protocol's queue holds, and lib/common/definitions.py.
-- The name of an event is a text built by `str`; names are only compared, so a data type with the
-- same distinctions stands for it.
use redes_hamelin.Base.{ℕ, ◌≡◌, ◌↔◌, Bool, true, false, Option, ◌==◌, ◌&&◌, arith, Eq}
use redes_hamelin.Text.{Text, text_eq, text_eq_iff}
use redes_hamelin.Segment.{Segment}

abbrev pub Address : Type 0
Address = Text × ℕ

abbrev pub FileDetails : Type 0
FileDetails = Text × ℕ

-- `a == b` on tuples.
abbrev pub address_eq : Address → Address → Bool
address_eq (h, p) (h', p') = text_eq h h' && p == p'

pub address_eq_iff : (a b : Address) → (address_eq a b ≡ true) ↔ (a ≡ b)
address_eq_iff (h, p) (h', p') = ground (arith, text_eq_iff h h')

instance abbrev pub address_Eq : Eq Address
address_Eq = record { beq = address_eq; beq_iff = address_eq_iff }

-- The address of a SegmentEvent is `None` where a state puts its own FIN.
pub data Event : Type 0 where
  segment : Segment → Option Address → Event
  segment_timeout : ℕ → Event
  abort : Event

pub data EventName : Type 0 where
  segment_name abort_name : EventName
  timeout_name : ℕ → EventName

unfoldable pub get_name : Event → EventName
get_name (segment s a) = segment_name
get_name (segment_timeout n) = timeout_name n
get_name abort = abort_name

unfoldable pub name_eq : EventName → EventName → Bool
name_eq segment_name segment_name = true
name_eq abort_name abort_name = true
name_eq (timeout_name m) (timeout_name n) = m == n
name_eq _ _ = false

pub name_eq_iff : (a b : EventName) → (name_eq a b ≡ true) ↔ (a ≡ b)
unfolding name_eq
name_eq_iff segment_name segment_name = ground arith
name_eq_iff segment_name abort_name = ground arith
name_eq_iff segment_name (timeout_name n) = ground arith
name_eq_iff abort_name segment_name = ground arith
name_eq_iff abort_name abort_name = ground arith
name_eq_iff abort_name (timeout_name n) = ground arith
name_eq_iff (timeout_name m) segment_name = ground arith
name_eq_iff (timeout_name m) abort_name = ground arith
name_eq_iff (timeout_name m) (timeout_name n) = ground arith
