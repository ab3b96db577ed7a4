-- ===== src/Sync/Server/Confirming.antt =====
-- sync_state_server.py: what a FIN does while `transmitSynAckPayloadSegment` waits. Its loop takes one
-- event after another from the queue on which `sendFin` puts the FIN of its own.
use redes_hamelin.Base.{
  ℕ, subst, zero, suc, refl, sym, inl, inr, Result-cases, ◌∷◌, ◌++◌, ◌≡◌, ◌∙◌, ap, true, false,
  none, [], arith, ok, Option,
}
use redes_hamelin.Text.{Text}
use redes_hamelin.Segment.{Segment, to_bytes}
use redes_hamelin.Segment.Checksum.{new_lem}
use redes_hamelin.Service.{ClientType, ProtocolType, service, make_fin_segment}
use redes_hamelin.Service.Makes.{kind}
use redes_hamelin.Service.Kinds.{segment_of, flags_of, fin-Reads}
use redes_hamelin.Event.{Address, segment, segment_timeout}
use redes_hamelin.Context.{Context, schedule_timeout, send_to, fin, put, change_state, send_fin}
use redes_hamelin.Files.Manager.{FileManager}
use redes_hamelin.Sync.{log_error}
use redes_hamelin.Sync.Server.{
  SyncServer, Serving, confirming, transmit, confirmation_arrived, go_on_after_fin, send_file_step,
}

abbrev own_fin : ClientType → ProtocolType → Segment
own_fin t p = segment_of 2 (flags_of 0b000001 t p) []

-- The context after `sendFin(1, FinState(ctx))`.
abbrev fin_sent : ClientType → ProtocolType → Context → Context
fin_sent t p c = change_state fin (put (segment (own_fin t p) none) c)

send_fin-fin_sent :
    (t : ClientType) (p : ProtocolType) (c : Context)
    → c.service ≡ service t p
    → send_fin 1 c ≡ ok (fin_sent t p c)
unfolding send_fin make_fin_segment
send_fin-fin_sent t p c same =
    let made : make_fin_segment c.service 1 ≡ ok (own_fin t p) =
      ap (λ v. make_fin_segment v 1) same ∙ new_lem 2 (flags_of 0b000001 t p) [] in
    rw (made, send_fin)

-- What a send leaves as it was.
send_to-leaves :
    (seg : Segment) (a : Address) (c : Context)
    → ((send_to seg a c).service ≡ c.service)
      × ((send_to seg a c).queue ≡ c.queue)
      × ((send_to seg a c).phase ≡ c.phase)
unfolding send_to
send_to-leaves seg a c = elim (Result-cases (to_bytes seg)) [
  | inl (bytes, e) ↦ rw (e, send_to) (refl, refl, refl)
  | inr (x, e) ↦ rw (e, send_to) (refl, refl, refl)
]

module _ (path_of : Text → Text) where
  -- As many rounds of the loop, while nothing comes from outside: each takes the first event of the
  -- queue, and an empty queue blocks.
  unfoldable pub rounds : ℕ → Serving → FileManager → Serving × FileManager
  rounds zero st m = (st, m)
  rounds (suc k) (confirming reply s) m = elim s.ctx.queue [
    | [] ↦ (confirming reply s, m)
    | e ∷ es ↦
        let (st, m') =
          send_file_step path_of e
            (confirming reply (record s { ctx = record s.ctx { queue = es } })) m in
        rounds k st m'
  ]
  rounds (suc k) st m = (st, m)

  module _ (t : ClientType) (p : ProtocolType) (reply : Segment) where
    -- The state that the loop comes back to.
    record Loops (s : SyncServer) : Type 0 where
      made_by : s.ctx.service ≡ service t p
      holds : s.ctx.queue ≡ segment (own_fin t p) none ∷ []
      ended : s.ctx.phase ≡ fin

    fin_again :
        (seg : Segment) (addr : Option Address) (s : SyncServer) (m : FileManager)
        → s.ctx.service ≡ service t p
        → s.ctx.queue ≡ []
        → kind seg ≡ (false, false, false, true)
        → (s' : SyncServer) × (send_file_step path_of (segment seg addr) (confirming reply s) m
            ≡ (confirming reply s', m))
          × Loops s'
    unfolding send_file_step log_error confirmation_arrived go_on_after_fin transmit
        schedule_timeout put change_state
    fin_again seg addr s m same quiet k =
        let c = schedule_timeout (segment_timeout reply.sequence_number) (fin_sent t p s.ctx) in
        let (made, queue, phase) = send_to-leaves reply s.peer_address c in
        (
          record s { ctx = send_to reply s.peer_address c },
          ground (arith, k, send_fin-fin_sent t p s.ctx same),
          record {
            made_by = made ∙ same;
            holds = queue ∙ ap (λ q. q ++ segment (own_fin t p) none ∷ []) quiet;
            ended = phase;
          },
        )

    stays :
        (k : ℕ) (s : SyncServer) (m : FileManager)
        → Loops s
        → (s' : SyncServer) × (rounds k (confirming reply s) m ≡ (confirming reply s', m))
          × Loops s'
    unfolding rounds
    stays zero s m l = (s, refl, l)
    stays (suc k) s m l =
        let (k', _, _) = fin-Reads t p 2 [] in
        let taken : SyncServer = record s { ctx = record s.ctx { queue = [] } } in
        let (s1, e1, l1) = fin_again (own_fin t p) none taken m l.made_by refl k' in
        let (s', e, l') = stays k s1 m l1 in (s', rw (l.holds, e1, rounds) e, l')

    -- While the server waits for the client's SYN-ACK with an empty queue, a FIN changes its state to
    -- the FinState and puts a FIN of the server's own on the queue. As long as nothing else comes, the
    -- loop never ends after that: after any number of further rounds it waits still, with the state
    -- changed and its own FIN on the queue again.
    pub fin_never_ends :
        (seg : Segment) (addr : Option Address) (s : SyncServer) (m : FileManager) (k : ℕ)
        → s.ctx.service ≡ service t p
        → s.ctx.queue ≡ []
        → kind seg ≡ (false, false, false, true)
        → let after = send_file_step path_of (segment seg addr) (confirming reply s) m in
          (s' : SyncServer) × (own : Segment) × (rounds k after.0 after.1
            ≡ (confirming reply s', m))
          × (s'.ctx.phase ≡ fin)
          × (s'.ctx.queue ≡ segment own none ∷ [])
          × (kind own ≡ (false, false, false, true))
    fin_never_ends seg addr s m k same quiet plain =
        let (s1, e1, l1) = fin_again seg addr s m same quiet plain in
        let (s', e, l) = stays k s1 m l1 in
        let (k', _, _) = fin-Reads t p 2 [] in
        (
          s',
          own_fin t p,
          subst (λ (x : Serving × FileManager). rounds k x.0 x.1 ≡ (confirming reply s', m))
              (sym e1) e,
          l.ended,
          l.holds,
          k',
        )
