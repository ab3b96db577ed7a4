-- ===== src/Fin/Resending.antt =====
-- fin_state.py: until an answer comes the FIN goes out again.
use redes_hamelin.Base.{
  ℕ, ◌+◌, ◌<◌, ◌≡◌, ◌∙◌, ap, true, false, Option, some, none, List, [], ◌∷◌, arith, ok, ◌⊎◌,
}
use redes_hamelin.Segment.{Segment, to_bytes}
use redes_hamelin.Segment.Checksum.{new_lem}
use redes_hamelin.Service.{ClientType, ProtocolType, service, make_fin_segment}
use redes_hamelin.Service.Makes.{kind}
use redes_hamelin.Service.Kinds.{segment_of, flags_of, fin-Reads}
use redes_hamelin.Event.{Address, segment}
use redes_hamelin.Context.{Context, send_to, schedule_timeout}
use redes_hamelin.Receiver.Delivery.{delivered}
use redes_hamelin.Receiver.{recv_from}
use redes_hamelin.Timer.{Timer, rto}
use redes_hamelin.Timer
use redes_hamelin.Fin.{waiting, step, on_termination, from_address, known, send_fin_on}

-- A FinState that knows its FIN, or gets it now.
resent :
    (t : ClientType) (p : ProtocolType) (own : Segment) (before : Option Segment) (c : Context)
    → known before own ≡ own
    → kind own ≡ (false, false, false, true)
    → c.service ≡ service t p
    → let seg = segment_of (own.sequence_number + 1) (flags_of 0b000001 t p) [] in
      step (segment own none) before c
      ≡ waiting
          (some own)
          (schedule_timeout (segment own none) (send_to seg c.disconnector_address c))
unfolding step on_termination from_address send_fin_on make_fin_segment
resent t p own before c e k same =
    let n = own.sequence_number in
    let made : make_fin_segment c.service n ≡ ok (segment_of (n + 1) (flags_of 0b000001 t p) []) =
      ap (λ v. make_fin_segment v n) same ∙ new_lem (n + 1) (flags_of 0b000001 t p) [] in
    ground (arith, k, e, made)

send_to-written :
    (seg : Segment) (a : Address) (c : Context) (bytes : List ℕ)
    → to_bytes seg ≡ ok bytes
    → send_to seg a c ≡ record c { sent = (bytes, a) ∷ c.sent }
unfolding send_to
send_to-written seg a c bytes e = rw (e, send_to)

-- When the queue gives a FinState its own FIN, with a number below 65535, and no other FIN or error
-- segment is known to it from before, a FIN that can be read goes to the disconnector, the state waits on, and the timer holds the same event, to be due after
-- `RTO_SECONDS`.
pub own_fin_goes_out :
    (t : ClientType) (p : ProtocolType) (own : Segment) (before : Option Segment) (c : Context)
    → (before ≡ none) ⊎ (before ≡ some own)
    → kind own ≡ (false, false, false, true)
    → c.service ≡ service t p
    → own.sequence_number + 1 < 65536
    → (bytes : List ℕ) × (seg : Segment) × (recv_from bytes ≡ ok seg)
      × (kind seg ≡ (false, false, false, true))
      × (step (segment own none) before c
          ≡ waiting (some own) (record c {
            sent = (bytes, c.disconnector_address) ∷ c.sent;
            timer = Timer.schedule c.now rto (segment own none) c.timer;
          }))
unfolding schedule_timeout
own_fin_goes_out t p own before c which k same small =
    let n = own.sequence_number in
    let (k', _, fits) = fin-Reads t p (n + 1) [] in
    let (bytes, written, read, _) =
      delivered (n + 1) 0 (flags_of 0b000001 t p) [] small (omega arith) (omega arith) fits
        (new_lem (n + 1) (flags_of 0b000001 t p) []) in
    let e : known before own ≡ own = ground (arith, which) in
    (
      bytes,
      segment_of (n + 1) (flags_of 0b000001 t p) [],
      read,
      k',
      resent t p own before c e k same
          ∙ ap (λ x. waiting (some own) (schedule_timeout (segment own none) x))
              (send_to-written _ c.disconnector_address c bytes written),
    )
