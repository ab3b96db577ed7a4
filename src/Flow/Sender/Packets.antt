-- ===== src/Flow/Sender/Packets.antt =====
-- flow_state.py, `makeWindow`: which packets it makes.
use redes_hamelin.Base.{
  ℕ, zero, suc, ◌+◌, ◌-◌, ◌≤◌, ◌<◌, ◌≡◌, refl, ap, ◌∙◌, ◌⊎◌, inl, inr, some, List, [], ◌∷◌, arith,
  length, get_elem?, get_elem?_lt, nat_Eq, Result, ok, Bool-cases, lt→ltb, le→ltb, ltb,
}
use mathlib.Core.Path.{ap₂}
use native.Mathlib.Decide.{dec_lt}
use redes_hamelin.Segment.{Segment}
use redes_hamelin.Service.{Service}
use redes_hamelin.Service.Makes.{data_segment, make_segment-eq-data_segment}
use redes_hamelin.Flow.{Flow}
use redes_hamelin.Flow.Sender.{make_packets}
use redes_hamelin.Flow.Sender.Window.{IsChunk}

-- The same state with another next number.
abbrev pub at_next : Flow → ℕ → Flow
at_next f n = record f { next_sequence_number = n }

module _ (chunks : List (List ℕ)) (svc : Service) (start : ℕ) where
  -- Segments of the chunks from a number on, one after another.
  abbrev pub AreChunksFrom : ℕ → List Segment → Type 0
  AreChunksFrom n [] = Unit {0}
  AreChunksFrom n (seg ∷ segs) =
      (seg.sequence_number ≡ n) × IsChunk chunks svc start n seg × AreChunksFrom (n + 1) segs

  -- What `makeWindow` made of a state: which packets, and why it stopped.
  pub record Packets (made : ℕ) (f : Flow) (n : ℕ) (segs : List Segment) : Type 0 where
    pub chunks_from : AreChunksFrom n segs
    pub in_file : n + length segs ≤ start + length chunks
    pub in_window : (segs ≡ []) ⊎ (length f.packets_in_flight + made + length segs ≤ f.window_size)
    pub full :
        (n + length segs ≡ start + length chunks)
        ⊎ (f.window_size ≤ length f.packets_in_flight + made + length segs)

  stay :
      (n : ℕ) (f : Flow)
      → ◌≡◌ {A = Result (List Segment × Flow)} (ok ([], at_next f n)) (ok ([], at_next f (n + 0)))
  stay n f = ap (λ k. ok ([], at_next f k)) (omega arith)

  make_packets_zero : (made : ℕ) (g : Flow) → make_packets 0 chunks made g ≡ ok ([], g)
  unfolding make_packets
  make_packets_zero made g = refl

  make_packets_stop :
      (fuel made n : ℕ) (f : Flow)
      → (length chunks ≤ n - f.initial_sequence_number)
        ⊎ (f.window_size ≤ length f.packets_in_flight + made)
      → make_packets (suc fuel) chunks made (at_next f n) ≡ ok ([], at_next f n)
  unfolding make_packets
  make_packets_stop fuel made n f (inl h) = rw (le→ltb _ _ h)
  make_packets_stop fuel made n f (inr h) =
      elim (Bool-cases (ltb (n - f.initial_sequence_number) (length chunks))) [
        | inl e ↦ rw (e, le→ltb _ _ h)
        | inr e ↦ rw e
      ]

  make_packets_more :
      (fuel made n : ℕ) (f : Flow) {p : List ℕ} {segs : List Segment} {g : Flow}
      → get_elem? chunks (n - f.initial_sequence_number) ≡ some p
      → n - f.initial_sequence_number < length chunks
      → length f.packets_in_flight + made < f.window_size
      → make_packets fuel chunks (made + 1) (at_next f (n + 1)) ≡ ok (segs, g)
      → make_packets (suc fuel) chunks made (at_next f n)
        ≡ ok (data_segment f.ctx.service n p ∷ segs, g)
  unfolding make_packets
  make_packets_more fuel made n f {p} e h k rest =
      rw (lt→ltb _ _ h, lt→ltb _ _ k, e, make_segment-eq-data_segment f.ctx.service n p, rest)

  one_more :
      (fuel made n : ℕ) (f : Flow) {p : List ℕ} {segs : List Segment}
      → f.ctx.service ≡ svc
      → f.initial_sequence_number ≡ start
      → get_elem? chunks (n - start) ≡ some p
      → n - start < length chunks
      → length f.packets_in_flight + made < f.window_size
      → make_packets fuel chunks (made + 1) (at_next f (n + 1))
        ≡ ok (segs, at_next f (n + 1 + length segs))
      → make_packets (suc fuel) chunks made (at_next f n)
        ≡ ok (data_segment svc n p ∷ segs, at_next f (n + suc (length segs)))
  one_more fuel made n f {p} {segs} hs hi found inside room e =
      make_packets_more fuel made n f (rw hi found) (omega (arith, hi)) room e
      ∙ ap₂ (λ (v : Service) k. ok (data_segment v n p ∷ segs, at_next f k)) hs (omega arith)

  -- `makeWindow` never raises. It numbers chunks one after another from the next number, keeps to
  -- the window, and stops only at the end of the file or when the window is full.
  pub make_packets_lem :
      (fuel made n : ℕ) (f : Flow)
      → f.ctx.service ≡ svc
      → f.initial_sequence_number ≡ start
      → start ≤ n
      → n ≤ start + length chunks
      → f.window_size ≤ length f.packets_in_flight + made + fuel
      → (segs : List Segment) × (make_packets fuel chunks made (at_next f n)
          ≡ ok (segs, at_next f (n + length segs)))
        × Packets made f n segs
  make_packets_lem zero made n f hs hi from to enough = (
    [],
    make_packets_zero made (at_next f n) ∙ stay n f,
    record {
      chunks_from = tt;
      in_file = omega arith;
      in_window = inl refl;
      full = inr (omega arith);
    },
  )
  make_packets_lem (suc fuel) made n f hs hi from to enough =
      elim (dec_lt (n - start) (length chunks)) [
        | no end ↦ (
          [],
          make_packets_stop fuel made n f (inl (omega (arith, hi))) ∙ stay n f,
          record {
            chunks_from = tt;
            in_file = omega arith;
            in_window = inl refl;
            full = inl (omega arith);
          },
        )
        | yes inside ↦ elim (dec_lt (length f.packets_in_flight + made) f.window_size) [
          | no crowded ↦ (
            [],
            make_packets_stop fuel made n f (inr (omega arith)) ∙ stay n f,
            record {
              chunks_from = tt;
              in_file = omega arith;
              in_window = inl refl;
              full = inr (omega arith);
            },
          )
          | yes room ↦
              let (p, found) = get_elem?_lt chunks (n - start) inside in
              let (segs, e, made_so) =
                make_packets_lem fuel (made + 1) (n + 1) f hs hi (omega arith) (omega arith)
                  (omega arith) in
              (
                data_segment svc n p ∷ segs,
                one_more fuel made n f hs hi found inside room e,
                record {
                  chunks_from = (refl, (p, from, found, refl), made_so.chunks_from);
                  in_file = omega (arith, made_so.in_file);
                  in_window = inr (elim made_so.in_window [
                    | inl e ↦ omega (arith, ap length e)
                    | inr h ↦ omega arith
                  ]);
                  full = omega (arith, made_so.full);
                },
              )
        ]
      ]
