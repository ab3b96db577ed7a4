-- ===== src/Context/Sending.antt =====
-- sender.py: a send changes nothing but the datagrams sent, and adds at most one that carries the
-- segment.
use redes_hamelin.Base.{ℕ, ◌≡◌, inl, inr, List, All, Result-cases, ok}
use redes_hamelin.Segment.{Segment, to_bytes}
use redes_hamelin.Event.{Address}
use redes_hamelin.Context.{Context, send_to}

-- A datagram that carries this segment.
abbrev pub Carries : Segment → List ℕ × Address → Type 0
Carries seg (bytes, _) = to_bytes seg ≡ ok bytes

pub sent-send_to :
    (P : List ℕ × Address → Type 0) (seg : Segment) (a : Address) (c : Context)
    → ((d : List ℕ × Address) → Carries seg d → P d)
    → All P c.sent
    → All P (send_to seg a c).sent
unfolding send_to
sent-send_to P seg a c h w = elim (Result-cases (to_bytes seg)) [
  | inl (bytes, e) ↦ rw (e, send_to) (h (bytes, a) e, w)
  | inr (x, e) ↦ rw (e, send_to) w
]

pub service-send_to :
    (seg : Segment) (a : Address) (c : Context) → (send_to seg a c).service ≡ c.service
unfolding send_to
service-send_to seg a c = elim (Result-cases (to_bytes seg)) [
  | inl (bytes, e) ↦ rw (e, send_to)
  | inr (x, e) ↦ rw (e, send_to)
]
