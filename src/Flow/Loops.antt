-- ===== src/Flow/Loops.antt =====
-- The while loops of flow_state.py (`makeWindow`, `handleAck`, `writeContiguousPackets`), run by their
-- conditions and bodies without any fuel.
use redes_hamelin.Base.{
  ℕ, zero, suc, nat_Eq, ◌+◌, ◌-◌, ◌≤◌, ◌<◌, ◌≡◌, ◌∙◌, refl, ap, subst, inl, inr, Bool, true, false,
  not, ◌&&◌, none, some, List, [], ◌∷◌, ◌++◌, arith, length, get_elem?, ltb, Bool-cases,
  Option-cases, Result, ok, err, ◌>>=◌, or_raise, index_error, key_error, PyError, append-nil,
  append_assoc, length-append,
}
use native.Mathlib.Decide.{dec_lt}
use redes_hamelin.Base.Dict.{lookup, contains, length-erase_lt, lookup_of_length}
use redes_hamelin.Segment.{Segment}
use redes_hamelin.Service.{make_segment}
use redes_hamelin.Service.Makes.{data_segment, make_segment-eq-data_segment}
use redes_hamelin.Flow.{Flow}
use redes_hamelin.Flow.Sender.{make_packets, make_window, slide, handle_ack}
use redes_hamelin.Flow.Sender.Acks.{
  acked, handle_ack_known, slide_go, slide_kept, slide_zero, slide_empty,
}
use redes_hamelin.Flow.Receiver.{drain}
use redes_hamelin.Flow.Receiver.Drain.{popped, drain-none, drain-some}

-- `while test: body`, from a state to what it ends with: the body may raise.
pub data While {S : Type 0} (test : S → Bool) (body : S → Result S) : S → Result S → Type 0 where
  over : {s : S} → test s ≡ false → While test body s (ok s)
  turn :
      {s t : S} {r : Result S}
      → test s ≡ true
      → body s ≡ ok t
      → While test body t r
      → While test body s r
  raises : {s : S} {e : PyError} → test s ≡ true → body s ≡ err e → While test body s (err e)

-- The base has no packet in flight, and there are packets after it.
abbrev pub is_behind : Flow → Bool
is_behind f =
    not (contains f.base_number f.packets_in_flight) && ltb f.base_number f.next_sequence_number

abbrev pub next_base : Flow → Result Flow
next_base f = ok (record f { base_number = f.base_number + 1 })

stays : (f : Flow) → ¬ (f.base_number < f.next_sequence_number) → is_behind f ≡ false
stays f h = ground arith

goes :
    (f : Flow)
    → lookup f.base_number f.packets_in_flight ≡ none
    → f.base_number < f.next_sequence_number
    → is_behind f ≡ true
goes f e h = ground arith

keeps :
    (f : Flow) {seg : Segment}
    → lookup f.base_number f.packets_in_flight ≡ some seg
    → is_behind f ≡ false
keeps f e = ground arith

slide-While :
    (fuel : ℕ) (f : Flow)
    → f.next_sequence_number ≤ f.base_number + fuel
    → While is_behind next_base f (ok (slide fuel f))
slide-While zero f h = rw (slide_zero f) (over (stays f (omega arith)))
slide-While (suc fuel) f h = elim (Option-cases (lookup f.base_number f.packets_in_flight)) [
  | inr (seg, e) ↦ rw (slide_kept fuel f seg e) (over (keeps f e))
  | inl e ↦ elim (dec_lt f.base_number f.next_sequence_number) [
    | yes more ↦ rw (slide_go fuel f e more) (
        turn (goes f e more) refl
          (slide-While fuel (record f { base_number = f.base_number + 1 }) (omega arith)))
    | no end ↦ rw (slide_empty fuel f end) (over (stays f end))
  ]
]

-- The packet at the receiver's base is buffered.
abbrev pub is_contiguous : List (List ℕ) × Flow → Bool
is_contiguous (cs, f) = contains f.recv_base_number f.receive_buffer

abbrev pub pop_one : List (List ℕ) × Flow → Result (List (List ℕ) × Flow)
pop_one (cs, f) = or_raise (lookup f.recv_base_number f.receive_buffer) key_error >>= λ seg.
    ok (cs ++ seg.payload ∷ [], popped f)

at_gap :
    (cs : List (List ℕ)) (f : Flow)
    → lookup f.recv_base_number f.receive_buffer ≡ none
    → is_contiguous (cs, f) ≡ false
at_gap cs f e = ground arith

no_gap :
    (cs : List (List ℕ)) (f : Flow) {seg : Segment}
    → lookup f.recv_base_number f.receive_buffer ≡ some seg
    → (is_contiguous (cs, f) ≡ true) × (pop_one (cs, f) ≡ ok (cs ++ seg.payload ∷ [], popped f))
no_gap cs f e = (ground arith, rw e refl)

drain-While :
    (fuel : ℕ) (cs : List (List ℕ)) (f : Flow)
    → length f.receive_buffer ≤ fuel
    → While is_contiguous pop_one (cs, f) (ok (cs ++ (drain fuel f).0, (drain fuel f).1))
drain-While zero cs f h =
    let e = lookup_of_length f.recv_base_number f.receive_buffer (omega arith) in
    rw (drain-none zero f e, append-nil cs) (over (at_gap cs f e))
drain-While (suc fuel) cs f h = elim (Option-cases (lookup f.recv_base_number f.receive_buffer)) [
  | inl e ↦ rw (drain-none (suc fuel) f e, append-nil cs) (over (at_gap cs f e))
  | inr (seg, e) ↦
      let rest = drain fuel (popped f) in
      let less = length-erase_lt f.recv_base_number f.receive_buffer e in
      let after = drain-While fuel (cs ++ seg.payload ∷ []) (popped f) (omega arith) in
      rw (drain-some fuel f e) (
        turn (no_gap cs f e).0 (no_gap cs f e).1 (
          subst
            (λ xs. While is_contiguous pop_one (cs ++ seg.payload ∷ [], popped f) (ok (xs, rest.1)))
            (append_assoc cs (seg.payload ∷ []) rest.0) after))
]

-- Chunks are left, and the window has room.
abbrev pub has_room : List (List ℕ) → List Segment × Flow → Bool
has_room chunks (packets, f) =
    ltb (f.next_sequence_number - f.initial_sequence_number) (length chunks)
    && ltb (length f.packets_in_flight + length packets) f.window_size

abbrev pub make_packet : List (List ℕ) → List Segment × Flow → Result (List Segment × Flow)
make_packet chunks (packets, f) =
    or_raise (get_elem? chunks (f.next_sequence_number - f.initial_sequence_number)) index_error
    >>= λ payload. make_segment f.ctx.service f.next_sequence_number 0 payload >>= λ seg.
        ok (packets ++ seg ∷ [], record f { next_sequence_number = f.next_sequence_number + 1 })

full :
    (chunks : List (List ℕ)) (packets : List Segment) (f : Flow)
    → f.window_size ≤ length f.packets_in_flight + length packets
    → has_room chunks (packets, f) ≡ false
full chunks packets f h = ground arith

-- What the rest of `makeWindow` adds to the packets.
abbrev after : List Segment → Result (List Segment × Flow) → Result (List Segment × Flow)
after packets r = r >>= λ x. ok (packets ++ x.0, x.1)

abbrev numbered : Flow → Flow
numbered f = record f { next_sequence_number = f.next_sequence_number + 1 }

-- A packet in front of the rest.
abbrev before : Segment → Result (List Segment × Flow) → Result (List Segment × Flow)
before seg r = r >>= λ x. ok (seg ∷ x.0, x.1)

after-before :
    (packets : List Segment) (seg : Segment) (r : Result (List Segment × Flow))
    → after (packets ++ seg ∷ []) r ≡ after packets (before seg r)
after-before packets seg (err e) = refl
after-before packets seg (ok (rest, g)) =
    ap (λ xs. ok (xs, g)) (append_assoc packets (seg ∷ []) rest)

after-nil : (r : Result (List Segment × Flow)) → after [] r ≡ r
after-nil (err e) = refl
after-nil (ok x) = refl

make_packets_none :
    (chunks : List (List ℕ)) (made : ℕ) (f : Flow) → make_packets 0 chunks made f ≡ ok ([], f)
unfolding make_packets
make_packets_none chunks made f = refl

make_packets_over :
    (chunks : List (List ℕ)) (fuel : ℕ) (packets : List Segment) (f : Flow)
    → has_room chunks (packets, f) ≡ false
    → make_packets (suc fuel) chunks (length packets) f ≡ ok ([], f)
unfolding make_packets
make_packets_over chunks fuel packets f h = rw h refl

make_packets_missing :
    (chunks : List (List ℕ)) (fuel : ℕ) (packets : List Segment) (f : Flow)
    → has_room chunks (packets, f) ≡ true
    → get_elem? chunks (f.next_sequence_number - f.initial_sequence_number) ≡ none
    → make_packets (suc fuel) chunks (length packets) f ≡ err index_error
unfolding make_packets
make_packets_missing chunks fuel packets f h e = rw (h, e) refl

make_packets_turn :
    (chunks : List (List ℕ)) (fuel : ℕ) (packets : List Segment) (f : Flow) {payload : List ℕ}
    → has_room chunks (packets, f) ≡ true
    → get_elem? chunks (f.next_sequence_number - f.initial_sequence_number) ≡ some payload
    → make_packets (suc fuel) chunks (length packets) f
      ≡ before
          (data_segment f.ctx.service f.next_sequence_number payload)
          (make_packets fuel chunks (length packets + 1) (numbered f))
unfolding make_packets
make_packets_turn chunks fuel packets f {payload} h e =
    rw (h, e, make_segment-eq-data_segment f.ctx.service f.next_sequence_number payload) refl

make_packet-some :
    (chunks : List (List ℕ)) (packets : List Segment) (f : Flow) {payload : List ℕ}
    → get_elem? chunks (f.next_sequence_number - f.initial_sequence_number) ≡ some payload
    → make_packet chunks (packets, f)
      ≡ ok (packets ++ data_segment f.ctx.service f.next_sequence_number payload ∷ [], numbered f)
make_packet-some chunks packets f {payload} e =
    rw (e, make_segment-eq-data_segment f.ctx.service f.next_sequence_number payload) refl

make_packets-While :
    (chunks : List (List ℕ)) (fuel : ℕ) (packets : List Segment) (f : Flow)
    → f.window_size ≤ length f.packets_in_flight + length packets + fuel
    → While
        (has_room chunks)
        (make_packet chunks)
        (packets, f)
        (after packets (make_packets fuel chunks (length packets) f))
make_packets-While chunks zero packets f h =
    rw (make_packets_none chunks (length packets) f, append-nil packets)
      (over (full chunks packets f (omega arith)))
make_packets-While chunks (suc fuel) packets f h =
    elim (Bool-cases (has_room chunks (packets, f))) [
      | inr closed ↦
          rw (make_packets_over chunks fuel packets f closed, append-nil packets) (over closed)
      | inl room ↦
          elim (Option-cases
            (get_elem? chunks (f.next_sequence_number - f.initial_sequence_number))) [
              | inl e ↦
                  rw (make_packets_missing chunks fuel packets f room e) (raises room (rw e refl))
              | inr (payload, e) ↦
                  let seg = data_segment f.ctx.service f.next_sequence_number payload in
                  let longer = length-append packets (seg ∷ []) in
                  let rest =
                    make_packets-While chunks fuel (packets ++ seg ∷ []) (numbered f)
                      (omega arith) in
                  rw (make_packets_turn chunks fuel packets f room e) (
                    turn room (make_packet-some chunks packets f e) (
                      subst
                        (While (has_room chunks) (make_packet chunks)
                          (packets ++ seg ∷ [], numbered f))
                        (ap
                            (λ n.
                              after (packets ++ seg ∷ []) (make_packets fuel chunks n (numbered f)))
                            longer
                          ∙ after-before packets seg
                              (make_packets fuel chunks (length packets + 1) (numbered f)))
                        rest))
            ]
    ]

-- The three loops end without fuel, in every state with a packet in flight for the acknowledgement:
-- that of `makeWindow` with the window made, that of `handleAck` with the state after it, that of
-- `writeContiguousPackets` with what is taken from the buffer.
pub flow_loops_end :
    (chunks : List (List ℕ)) (ack : Segment) (f : Flow) {packet : Segment}
    → lookup ack.sequence_number f.packets_in_flight ≡ some packet
    → While (has_room chunks) (make_packet chunks) ([], f) (make_window chunks f)
      × While is_behind next_base (acked ack f) (ok (handle_ack ack f))
      × While is_contiguous pop_one ([], f) (ok (drain (length f.receive_buffer) f))
unfolding make_window
flow_loops_end chunks ack f known = (
  subst (While (has_room chunks) (make_packet chunks) ([], f))
      (after-nil (make_packets f.window_size chunks 0 f))
      (make_packets-While chunks f.window_size [] f (omega arith)),
  rw (handle_ack_known ack f known)
      (slide-While (f.next_sequence_number - f.base_number) (acked ack f) (omega arith)),
  drain-While (length f.receive_buffer) [] f (omega arith),
)
