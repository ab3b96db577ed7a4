-- ===== src/Transfer/Outcome.antt =====
-- What a transfer comes to: the file that the receiver has in every state of it.
use redes_hamelin.Base.{
  ℕ, ◌+◌, ◌-◌, ◌≤◌, ◌<◌, ◌≡◌, refl, subst, ◌∙◌, inl, inr, List, [], ◌++◌, arith, length, take,
  replicate, take-of_le, append-nil, ok, some, Option-cases, nat_Eq,
}
use native.Mathlib.Decide.{dec_lt}
use redes_hamelin.Base.Dict.{lookup, lookup-nil}
use redes_hamelin.Segment.{Segment}
use redes_hamelin.Service.{
  ClientType, ProtocolType, stop_and_wait, selective_repeat, Service, service,
}
use redes_hamelin.Event.{FileDetails}
use redes_hamelin.Context.{Context}
use redes_hamelin.Files.Writer.{FileWriter, open_file, total_length, concat}
use redes_hamelin.Files.Writer.Prefix.{Holds, open_file-Holds}
use redes_hamelin.Flow.{Flow, create, flow_state, window_of}
use redes_hamelin.Flow.Sender.{Progress, waiting, left, raised, advance}
use redes_hamelin.Flow.Sender.Window.{Window, IsChunk}
use redes_hamelin.Flow.Sender.Rounds.{Keeps, advance-Keeps}
use redes_hamelin.Flow.Receiver.{receiving}
use redes_hamelin.Flow.Receiver.Buffer.{Arrived, InOrder}
use redes_hamelin.Transfer.{Net, sender_flow, receiver_flow, receiver_file, Reach}
use redes_hamelin.Transfer.Parts.{IsUnbroken}
use redes_hamelin.Transfer.Safety.{IsSafe, Reach-IsSafe}

-- Both sides of a transfer that has just begun: the contexts of the two protocols, with nothing of
-- the transfer sent yet, and the receiver's new file.
pub record Begins (c : ClientType) (p : ProtocolType) (ctx_s ctx_r : Context) : Type 0 where
  pub sender_service : ctx_s.service ≡ service c p
  pub receiver_service : ctx_r.service ≡ service c p
  pub sender_quiet : ctx_s.sent ≡ []
  pub receiver_quiet : ctx_r.sent ≡ []

-- `sendFile` up to its first `get`, and `downloadFile` at its own.
unfoldable pub begin :
    List (List ℕ) → Context → Context → FileDetails → FileDetails → ℕ → FileWriter → Net
begin chunks ctx_s ctx_r details_s details_r start w = record {
  sender = advance chunks (create ctx_s details_s start);
  receiver = receiving (create ctx_r details_r start) w;
}

pub window_of_pos : (p : ProtocolType) → 0 < window_of p
window_of_pos stop_and_wait = omega arith
window_of_pos selective_repeat = omega arith

pub none_there : (n : ℕ) {seg : Segment} → lookup {V = Segment} n [] ≡ some seg → ⊥
none_there n h = cc (lookup-nil {V = Segment} n)

module _ (chunks : List (List ℕ)) (c : ClientType) (p : ProtocolType) (start : ℕ) where
  pub create-Window :
      (Got : ℕ → Type 0) (ctx : Context) (details : FileDetails)
      → ctx.service ≡ service c p
      → ctx.sent ≡ []
      → Window chunks (service c p) start Got (create ctx details start)
  unfolding create flow_state
  create-Window Got ctx details made quiet = record {
    made_by = made;
    starts = refl;
    base_from = omega arith;
    base_to = omega arith;
    top_to = omega arith;
    flying = λ n seg h. absurd (none_there n h);
    gone = λ n from to h. absurd (omega arith);
    wire = rw quiet tt;
  }

  create-Keeps :
      (Got : ℕ → Type 0) (ctx : Context) (details : FileDetails)
      → ctx.service ≡ service c p
      → ctx.sent ≡ []
      → Keeps chunks (service c p) start Got (advance chunks (create ctx details start))
  unfolding create flow_state
  create-Keeps Got ctx details made quiet =
      advance-Keeps chunks (service c p) start Got (create ctx details start)
        (create-Window Got ctx details made quiet) (inl refl) (omega arith)
        (window_of_pos ctx.protocol_type)

  pub create-InOrder :
      (ctx : Context) (details : FileDetails) (w : FileWriter)
      → ctx.service ≡ service c p
      → ctx.sent ≡ []
      → open_file (total_length chunks) ≡ ok w
      → InOrder chunks (service c p) start (create ctx details start) w
  unfolding create flow_state
  create-InOrder ctx details w made quiet opened =
      let none_yet : 0 ≡ start - start = omega arith in
      record {
        made_by = made;
        from = omega arith;
        written = subst (λ k. Holds chunks k 0 w) none_yet (open_file-Holds chunks opened);
        buffered = λ n seg h. absurd (none_there n h);
        gap = lookup-nil start;
        acks = rw quiet tt;
      }

  pub begin-IsSafe :
      {ctx_s ctx_r : Context} {w : FileWriter} (details_s details_r : FileDetails)
      → Begins c p ctx_s ctx_r
      → open_file (total_length chunks) ≡ ok w
      → IsSafe chunks c p start (begin chunks ctx_s ctx_r details_s details_r start w)
  unfolding begin
  begin-IsSafe {ctx_s} {ctx_r} {w} details_s details_r b opened = record {
    sending =
        create-Keeps (Arrived chunks (service c p) start (create ctx_r details_r start)) ctx_s
          details_s b.sender_service b.sender_quiet;
    in_order = create-InOrder ctx_r details_r w b.receiver_service b.receiver_quiet opened;
    unbroken = tt;
  }

-- Every number below the sender's base is written at the receiver.
module _ (chunks : List (List ℕ)) (svc : Service) (start : ℕ) where
  sender_flow-Window :
      (G : ℕ → Type 0) (s : Progress)
      → Keeps chunks svc start G s
      → Window chunks svc start G (sender_flow s)
  sender_flow-Window G (waiting f) k = k.window
  sender_flow-Window G (left b f) k = k
  sender_flow-Window G (raised e f) k = k

  pub acknowledged_written :
      (f g : Flow) (w : FileWriter)
      → Window chunks svc start (Arrived chunks svc start g) f
      → InOrder chunks svc start g w
      → f.base_number ≤ g.recv_base_number
  acknowledged_written f g w win o = elim (dec_lt g.recv_base_number f.base_number) [
    | no fine ↦ omega arith
    | yes behind ↦ elim (Option-cases (lookup g.recv_base_number f.packets_in_flight)) [
      | inr (seg, flies) ↦ absurd (omega (arith, (win.flying g.recv_base_number seg flies).0))
      | inl gone ↦ elim (win.gone g.recv_base_number o.from (omega (arith, win.base_to)) gone) [
        | inl below ↦ absurd (omega arith)
        | inr (seg, there) ↦ absurd (cc o.gap)
      ]
    ]
  ]

  whole :
      (g : Flow) (w : FileWriter)
      → InOrder chunks svc start g w
      → start + length chunks ≤ g.recv_base_number
      → w.content ≡ concat chunks
  whole g w o all =
      let done : take (g.recv_base_number - start) chunks ≡ chunks =
        take-of_le (g.recv_base_number - start) chunks (omega arith) in
      let none_left : total_length chunks - total_length chunks ≡ 0 = omega arith in
      o.written.2 ∙ rw (done, none_left) (append-nil (concat chunks))

module _ (chunks : List (List ℕ)) (c : ClientType) (p : ProtocolType) (start : ℕ)
    {ctx_s ctx_r : Context} {w : FileWriter} (details_s details_r : FileDetails)
    (b : Begins c p ctx_s ctx_r) (opened : open_file (total_length chunks) ≡ ok w) {s : Net}
    (r : Reach chunks (begin chunks ctx_s ctx_r details_s details_r start w) s) where
  pub safe : IsSafe chunks c p start s
  safe =
      Reach-IsSafe chunks c p start (begin-IsSafe chunks c p start details_s details_r b opened) r

  -- A transfer begins with two contexts of one service that have sent nothing and a new file of the
  -- size of the chunks. In every state that it reaches, the receiver's file begins with the first
  -- chunks of the sender's, in order and once each, as many as the receive base counts, and the rest
  -- is zeros; `downloadedBytes` is the length of what is written; and no exception has ended the
  -- receiver's loop. Datagrams of more than 1400 bytes are not delivered.
  pub prefix_written :
      (let f = receiver_flow s.receiver in
        let done = take (f.recv_base_number - start) chunks in
        ((receiver_file s.receiver).content
          ≡ concat done ++ replicate (total_length chunks - total_length done) 0)
        × (f.downloaded_bytes ≡ total_length done)
        × IsUnbroken s.receiver)
  prefix_written = (safe.in_order.written.2, safe.in_order.written.1, safe.unbroken)

  -- In a transfer that has begun like that: once the sender's base is past the last chunk, which is
  -- to say that all are acknowledged, the receiver's file is the sender's.
  pub acknowledged_file_whole :
      (sender_flow s.sender).base_number ≡ start + length chunks
      → (receiver_file s.receiver).content ≡ concat chunks
  acknowledged_file_whole all =
      whole chunks (service c p) start (receiver_flow s.receiver) (receiver_file s.receiver)
        safe.in_order
        (omega (
          arith,
          acknowledged_written chunks (service c p) start (sender_flow s.sender)
              (receiver_flow s.receiver) (receiver_file s.receiver)
              (sender_flow-Window chunks (service c p) start _ s.sender safe.sending) safe.in_order,
        ))

  -- In a transfer that has begun like that: a sender that waits for an event has a packet in flight
  -- under its base number, which is the segment of the chunk of that number, and has no more packets
  -- in flight than its window has places.
  pub waiting_in_flight :
      {f : Flow}
      → s.sender ≡ waiting f
      → ((seg : Segment) × (lookup f.base_number f.packets_in_flight ≡ some seg)
          × IsChunk chunks (service c p) start f.base_number seg)
        × (length f.packets_in_flight ≤ f.window_size)
  waiting_in_flight {f} at =
      let k =
        subst
          (Keeps chunks (service c p) start
            (Arrived chunks (service c p) start (receiver_flow s.receiver)))
          at safe.sending in
      let (seg, flies) = k.head in
      ((seg, flies, (k.window.flying f.base_number seg flies).2), k.small)
