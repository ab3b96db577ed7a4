-- ===== src/Transfer/Parts.antt =====
-- The two halves of a transfer, each under what the other may do: the sender's window while the
-- receiver goes on, and the download after each event.
use redes_hamelin.Base.{ℕ, true, ◌&&◌, List, All, All-has, Bool-cases, inl, inr, leb}
use redes_hamelin.Segment.{Segment}
use redes_hamelin.Service.{ClientType, ProtocolType, Service, service}
use redes_hamelin.Event.{Address, Event, segment, segment_timeout, abort}
use redes_hamelin.Context.{change_state}
use redes_hamelin.Files.Writer.{FileWriter}
use redes_hamelin.Flow.{Flow}
use redes_hamelin.Flow.Sender.{Progress, waiting, left, raised, abort_flow}
use redes_hamelin.Flow.Sender.Window.{OnWire, WindowTo}
use redes_hamelin.Flow.Sender.Rounds.{Keeps, Tells}
use redes_hamelin.Flow.Receiver.{
  kept, Download, receiving, stopped, broken, receive, handle_segment_received, check_finished,
}
use redes_hamelin.Flow.Receiver.Buffer.{Arrived, IsAckOf, InOrder}
use redes_hamelin.Flow.Receiver.Arrivals.{GoesOn, IsData, handle_segment-GoesOn}
use redes_hamelin.Transfer.{
  sender_flow, receiver_flow, receiver_file, Delivery, datagram, timer, late, stop,
}
use redes_hamelin.Transfer.Wire.{from_bytes-IsData, ack_arrives}

-- The loop was not left by an exception.
abbrev pub IsUnbroken : Download → Type 0
IsUnbroken (broken e f w) = ⊥
IsUnbroken _ = Unit

module _ (chunks : List (List ℕ)) (svc : Service) (start : ℕ) where
  WindowTo-mono :
      {G H : ℕ → Type 0} (top : ℕ) (f : Flow)
      → ((n : ℕ) → G n → H n)
      → WindowTo chunks svc start G top f
      → WindowTo chunks svc start H top f
  WindowTo-mono top f more w = record {
    made_by = w.made_by;
    starts = w.starts;
    base_from = w.base_from;
    base_to = w.base_to;
    top_to = w.top_to;
    flying = w.flying;
    gone = λ n from to e. more n (w.gone n from to e);
    wire = w.wire;
  }

  -- What has arrived stays so, and so the sender's window stays right while the receiver goes on.
  pub Keeps-mono :
      {G H : ℕ → Type 0} (p : Progress)
      → ((n : ℕ) → G n → H n)
      → Keeps chunks svc start G p
      → Keeps chunks svc start H p
  Keeps-mono (waiting f) more k = record {
    window = WindowTo-mono f.next_sequence_number f more k.window;
    head = k.head;
    small = k.small;
    some_room = k.some_room;
  }
  Keeps-mono (left error f) more k = WindowTo-mono f.next_sequence_number f more k
  Keeps-mono (raised e f) more k = WindowTo-mono f.next_sequence_number f more k

  pub Keeps-wire :
      (G : ℕ → Type 0) (p : Progress)
      → Keeps chunks svc start G p
      → All (OnWire chunks svc start) (sender_flow p).ctx.sent
  Keeps-wire G (waiting f) k = k.window.wire
  Keeps-wire G (left error f) k = k.wire
  Keeps-wire G (raised e f) k = k.wire

  -- The same file and buffer, whatever the flags of the end say.
  InOrder-finished :
      (f : Flow) (w : FileWriter)
      → InOrder chunks svc start f w
      → InOrder chunks svc start (record f { finished = true }) w
  InOrder-finished f w o = record {
    made_by = o.made_by;
    from = o.from;
    written = o.written;
    buffered = o.buffered;
    gap = o.gap;
    acks = o.acks;
  }

  pub InOrder-aborted :
      (f : Flow) (w : FileWriter)
      → InOrder chunks svc start f w
      → InOrder chunks svc start (abort_flow f) w
  unfolding abort_flow change_state
  InOrder-aborted f w o = record {
    made_by = o.made_by;
    from = o.from;
    written = o.written;
    buffered = o.buffered;
    gap = o.gap;
    acks = o.acks;
  }

  -- A download in order, in which what had arrived before is still there.
  pub record Downloads (before : Flow) (d : Download) : Type 0 where
    pub in_order : InOrder chunks svc start (receiver_flow d) (receiver_file d)
    pub still :
        (n : ℕ) → Arrived chunks svc start before n → Arrived chunks svc start (receiver_flow d) n
    pub unbroken : IsUnbroken d

  pub check_finished-Downloads :
      (f g : Flow) (w : FileWriter)
      → GoesOn chunks svc start f g w
      → Downloads f (check_finished (kept g w))
  unfolding check_finished
  check_finished-Downloads f g w on =
      elim (Bool-cases (g.fin_received && leb g.file_details.1 g.downloaded_bytes)) [
        | inl done ↦
            rw (done, check_finished)
              (record {
                in_order = InOrder-finished g w on.in_order;
                still = on.still;
                unbroken = tt;
              })
        | inr more ↦
            rw (more, check_finished)
              (record { in_order = on.in_order; still = on.still; unbroken = tt })
      ]

  abort_keeps :
      (f : Flow) (n : ℕ) → Arrived chunks svc start f n → Arrived chunks svc start (abort_flow f) n
  unfolding abort_flow
  abort_keeps f n h = h

  -- A download that gets nothing new.
  unchanged-Downloads :
      (f : Flow) (w : FileWriter) → InOrder chunks svc start f w → Downloads f (receiving f w)
  unchanged-Downloads f w o = record { in_order = o; still = λ n h. h; unbroken = tt }

  aborted-Downloads :
      (f : Flow) (w : FileWriter)
      → InOrder chunks svc start f w
      → Downloads f (stopped (abort_flow f) w)
  aborted-Downloads f w o = record {
    in_order = InOrder-aborted f w o;
    still = λ n h. abort_keeps f n h;
    unbroken = tt;
  }

  data-Downloads :
      (f : Flow) (w : FileWriter) (seg : Segment)
      → InOrder chunks svc start f w
      → IsData chunks svc start seg
      → Downloads f (check_finished (handle_segment_received seg f w))
  data-Downloads f w seg o is_data =
      let (g, w', e, on, _) = handle_segment-GoesOn chunks svc start seg f w o is_data in
      rw e (check_finished-Downloads f g w' on)

-- The download after an event of the network.
module _ (chunks : List (List ℕ)) (c : ClientType) (p : ProtocolType) (start : ℕ) where
  pub receive-Downloads :
      (f : Flow) (w : FileWriter) (e : Event) (sent : List (List ℕ × Address))
      → InOrder chunks (service c p) start f w
      → All (OnWire chunks (service c p) start) sent
      → Delivery f sent e
      → Downloads chunks (service c p) start f (receive e f w)
  unfolding receive
  receive-Downloads f w (segment seg addr) sent o wire (datagram {d = d} a m fits read) =
      data-Downloads chunks (service c p) start f w seg o (
        from_bytes-IsData chunks c p start d (All-has (OnWire chunks (service c p) start) wire m)
          read)
  receive-Downloads f w (segment_timeout n) sent o wire (timer m armed) =
      unchanged-Downloads chunks (service c p) start f w o
  receive-Downloads f w (segment_timeout n) sent o wire (late m gone) =
      unchanged-Downloads chunks (service c p) start f w o
  receive-Downloads f w abort sent o wire stop = aborted-Downloads chunks (service c p) start f w o

  -- What a delivery tells the sender.
  pub delivery-Tells :
      (Got : ℕ → Type 0) (e : Event) (sent : List (List ℕ × Address)) {f : Flow}
      → All (IsAckOf chunks (service c p) start Got) sent
      → Delivery f sent e
      → Tells chunks (service c p) start Got e
  delivery-Tells Got (segment seg addr) sent acks (datagram {d = d} a m fits read) = λ ack.
      ack_arrives chunks c p start Got d (All-has (IsAckOf chunks (service c p) start Got) acks m)
        read
  delivery-Tells Got (segment_timeout n) sent acks (timer m armed) = tt
  delivery-Tells Got (segment_timeout n) sent acks (late m gone) = tt
  delivery-Tells Got abort sent acks stop = tt
