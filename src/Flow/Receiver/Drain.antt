-- ===== src/Flow/Receiver/Drain.antt =====
-- flow_state.py, the loop of `writeContiguousPackets`: it takes the contiguous segments out of the
-- buffer, in order, and stops at the first gap.
use redes_hamelin.Base.{
  ℕ, zero, suc, ◌+◌, ◌-◌, ◌≤◌, ◌<◌, ◌≡◌, refl, sym, ap, ◌∙◌, ◌⊎◌, inl, inr, none, some, List, [],
  ◌∷◌, ◌++◌, arith, length, get_elem?, take, take-suc, append-nil, append_assoc, nat_Eq,
  Option-cases,
}
use native.Mathlib.Decide.{ℕ_discrete}
use redes_hamelin.Base.Dict.{
  Dict, lookup, erase, length-erase_lt, lookup_of_erase, lookup_of_length, lookup_kept,
}
use redes_hamelin.Segment.{Segment}
use redes_hamelin.Flow.{Flow}
use redes_hamelin.Flow.Receiver.{drain}

abbrev pub popped : Flow → Flow
popped f = record f {
  recv_base_number = f.recv_base_number + 1;
  receive_buffer = erase f.recv_base_number f.receive_buffer;
}

pub drain-none :
    (fuel : ℕ) (f : Flow)
    → lookup f.recv_base_number f.receive_buffer ≡ none
    → drain fuel f ≡ ([], f)
unfolding drain
drain-none zero f e = refl
drain-none (suc fuel) f e = rw (e, drain)

pub drain-some :
    (fuel : ℕ) (f : Flow) {seg : Segment}
    → lookup f.recv_base_number f.receive_buffer ≡ some seg
    → drain (suc fuel) f ≡ (seg.payload ∷ (drain fuel (popped f)).0, (drain fuel (popped f)).1)
unfolding drain
drain-some fuel f e = rw (e, drain)

module _ (chunks : List (List ℕ)) (start : ℕ) where
  -- What lies in the buffer is the chunk of its number, from the base on.
  abbrev pub AreChunks : ℕ → Dict ℕ Segment → Type 0
  AreChunks base d =
      (n : ℕ) (seg : Segment)
      → lookup n d ≡ some seg
      → (base ≤ n) × (get_elem? chunks (n - start) ≡ some seg.payload)

  pub record Drained (f : Flow) (cs : List (List ℕ)) (g : Flow) : Type 0 where
    pub base : g.recv_base_number ≡ f.recv_base_number + length cs
    pub same :
        g ≡ record f { recv_base_number = g.recv_base_number; receive_buffer = g.receive_buffer }
    pub reads :
        take (f.recv_base_number - start + length cs) chunks
        ≡ take (f.recv_base_number - start) chunks ++ cs
    pub stays :
        (n : ℕ) (seg : Segment)
        → lookup n g.receive_buffer ≡ some seg
        → lookup n f.receive_buffer ≡ some seg
    pub from_base : AreChunks g.recv_base_number g.receive_buffer
    pub arrived :
        (n : ℕ) (seg : Segment)
        → lookup n f.receive_buffer ≡ some seg
        → (n < g.recv_base_number) ⊎ (lookup n g.receive_buffer ≡ some seg)
    pub gap : lookup g.recv_base_number g.receive_buffer ≡ none

  nothing-Drained :
      (f : Flow)
      → AreChunks f.recv_base_number f.receive_buffer
      → lookup f.recv_base_number f.receive_buffer ≡ none
      → Drained f [] f
  nothing-Drained f h e = record {
    base = omega arith;
    same = refl;
    reads =
        ap (λ k. take k chunks) (omega arith)
        ∙ sym (append-nil (take (f.recv_base_number - start) chunks));
    stays = λ n seg l. l;
    from_base = h;
    arrived = λ n seg l. inr l;
    gap = e;
  }

  popped-AreChunks :
      (f : Flow)
      → AreChunks f.recv_base_number f.receive_buffer
      → AreChunks (popped f).recv_base_number (popped f).receive_buffer
  popped-AreChunks f h n seg l =
      let (other, before) = lookup_of_erase f.recv_base_number n f.receive_buffer l in
      let (from, chunk) = h n seg before in (omega arith, chunk)

  cons-Drained :
      (f g : Flow) (seg : Segment) (cs : List (List ℕ))
      → start ≤ f.recv_base_number
      → AreChunks f.recv_base_number f.receive_buffer
      → lookup f.recv_base_number f.receive_buffer ≡ some seg
      → Drained (popped f) cs g
      → Drained f (seg.payload ∷ cs) g
  cons-Drained f g seg cs from h e d =
      let step : f.recv_base_number + 1 - start ≡ suc (f.recv_base_number - start) = omega arith in
      record {
        base = omega (arith, d.base);
        same = d.same;
        reads =
            ap (λ k. take k chunks) (omega arith)
            ∙ d.reads
            ∙ ap (λ k. take k chunks ++ cs) step
            ∙ ap (λ l. l ++ cs)
                (take-suc (f.recv_base_number - start) chunks (h f.recv_base_number seg e).1)
            ∙ append_assoc (take (f.recv_base_number - start) chunks) (seg.payload ∷ []) cs;
        stays = λ n s l. (lookup_of_erase f.recv_base_number n f.receive_buffer (d.stays n s l)).1;
        from_base = d.from_base;
        arrived = λ n s l. elim (ℕ_discrete f.recv_base_number n) [
          | yes here ↦ inl (omega (arith, d.base))
          | no other ↦ d.arrived n s (lookup_kept f.recv_base_number n f.receive_buffer other l)
        ];
        gap = d.gap;
      }

  -- With fuel for the whole buffer the loop ends at a gap.
  pub drain-Drained :
      (fuel : ℕ) (f : Flow)
      → start ≤ f.recv_base_number
      → length f.receive_buffer ≤ fuel
      → AreChunks f.recv_base_number f.receive_buffer
      → Drained f (drain fuel f).0 (drain fuel f).1
  drain-Drained zero f from enough h =
      let e = lookup_of_length f.recv_base_number f.receive_buffer (omega arith) in
      rw (drain-none zero f e) (nothing-Drained f h e)
  drain-Drained (suc fuel) f from enough h =
      elim (Option-cases (lookup f.recv_base_number f.receive_buffer)) [
        | inl e ↦ rw (drain-none (suc fuel) f e) (nothing-Drained f h e)
        | inr (seg, e) ↦ rw (drain-some fuel f e) (
            cons-Drained f (drain fuel (popped f)).1 seg (drain fuel (popped f)).0 from h e (
              drain-Drained fuel (popped f) (omega arith)
                (omega (arith, length-erase_lt f.recv_base_number f.receive_buffer e))
                (popped-AreChunks f h)))
      ]
