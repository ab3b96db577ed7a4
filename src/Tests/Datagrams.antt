-- ===== src/Tests/Datagrams.antt =====
-- A damaged datagram and a short one.
use redes_hamelin.Base.{ℕ, ◌≡◌, ◌⊎◌, List, [], ◌∷◌, some, arith, ok, err, PyError}
use redes_hamelin.Segment.{Segment, to_bytes}
use redes_hamelin.Service.{stop_and_wait, upload, service}
use redes_hamelin.Event.{Address, segment}
use redes_hamelin.Timer.{start}
use redes_hamelin.Context.{Context, sync, put}
use redes_hamelin.Receiver.{recv_from, running, ended, listen_one, listen}
use redes_hamelin.Receiver.Delivery.{delivered}
use redes_hamelin.Tests.Wire.{small, small_made}
use redes_hamelin.Receiver.Datagrams.{listen_one_lem, short_ends}

abbrev pub context : Context
context = record {
  peer_address = ([], 9000);
  disconnector_address = ([], 9001);
  protocol_type = stop_and_wait;
  service = service upload stop_and_wait;
  timer = start;
  now = 0;
  sent = [];
  queue = [];
  phase = sync;
}

-- The checksum of the header is 0, and the payload has one byte.
abbrev damaged : List ℕ
damaged = 0 ∷ 0 ∷ 0 ∷ 5 ∷ 0 ∷ 32 ∷ 0 ∷ 0 ∷ 9 ∷ []

listen_one_lem_example :
    ((seg : Segment) × (recv_from damaged ≡ ok seg)
      × (listen_one damaged ([], 9000) context
          ≡ running (put (segment seg (some ([], 9000))) context)))
    ⊎ ((e : PyError) × (recv_from damaged ≡ err e)
        × (listen_one damaged ([], 9000) context ≡ ended context))
listen_one_lem_example = listen_one_lem damaged ([], 9000) context

short_ends_example :
    listen ((1 ∷ 2 ∷ [], ([], 9000)) ∷ (damaged, ([], 9000)) ∷ []) (running context) ≡ ended context
short_ends_example =
    short_ends (1 ∷ 2 ∷ []) ([], 9000) ((damaged, ([], 9000)) ∷ []) context (omega arith)

delivered_example :
    (bytes : List ℕ) × (to_bytes small ≡ ok bytes)
    × (recv_from bytes ≡ ok small)
    × ((addr : Address) (c : Context)
        → listen_one bytes addr c ≡ running (put (segment small (some addr)) c))
delivered_example =
    delivered 5 3 16 (7 ∷ 8 ∷ 9 ∷ []) (omega arith) (omega arith) (omega arith) (omega arith)
      small_made
