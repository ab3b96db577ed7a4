-- ===== src/Router/NatManager/Removal.antt =====
-- nat_manager.py: marking entries and removing flows keeps the ports allotted.
use redes_hamelin.Base.{
  ℕ, ◌≤◌, ◌≡◌, refl, Option, none, some, nat_Eq, arith, Option-cases, Bool-cases, inl, inr,
}
use redes_hamelin.Base.Dict.{lookup, lookup-insert}
use redes_hamelin.Router.NatEntry.{
  touch, installed, NatEntry, Direction, incoming, mark_flow_removed,
}
use redes_hamelin.Router.NatManager.{
  NatManager, update, flow_removed, mark_installed, handle_flow_removed_incoming, on_entry,
}
use redes_hamelin.Router.NatManager.Ports.{uses, Allots, remove_entry-Allots, lookup-uses}

update-Allots :
    (init ref : ℕ) (change : NatEntry → NatEntry) (m : NatManager)
    → Allots init m
    → Allots init (update ref change m)
unfolding update
update-Allots init ref change m a = elim (Option-cases (lookup ref m.store)) [
  | inl e ↦ rw (e, update) a
  | inr (x, e) ↦ rw (e, update) a
]

pub mark_installed-Allots :
    (init now ref mac port : ℕ) (m : NatManager)
    → Allots init m
    → Allots init (mark_installed now ref mac port m)
unfolding mark_installed
mark_installed-Allots init now ref mac port m a = update-Allots init ref _ m a

update-entries :
    (ref : ℕ) (change : NatEntry → NatEntry) (m : NatManager)
    → (update ref change m).entries ≡ m.entries
unfolding update
update-entries ref change m = elim (Option-cases (lookup ref m.store)) [
  | inl e ↦ rw (e, update) refl
  | inr (x, e) ↦ rw (e, update) refl
]

pub flow_removed-Allots :
    (init port ref : ℕ) (direction : Direction) (e : NatEntry) (m : NatManager)
    → 1 ≤ uses port m.entries
    → Allots init m
    → Allots init (flow_removed direction port ref e m)
unfolding flow_removed
flow_removed-Allots init port ref direction e m here a =
    let change : NatEntry → NatEntry = λ x. (mark_flow_removed direction x).0 in
    let a' = update-Allots init ref change m a in
    elim (Bool-cases (mark_flow_removed direction e).1) [
      | inl both ↦
          rw (both, flow_removed)
            (remove_entry-Allots init port (update ref change m)
              (rw (update-entries ref change m) here) a')
      | inr one ↦ rw (one, flow_removed) a'
    ]

-- A handler of one entry keeps what its change keeps.
pub on_entry-keeps :
    (P : NatManager → Type 0) (found : Option ℕ) (change : ℕ → NatEntry → NatManager)
    (m : NatManager)
    → P m
    → ((ref : ℕ) (e : NatEntry) → found ≡ some ref → lookup ref m.store ≡ some e → P (change ref e))
    → P (on_entry found change m)
on_entry-keeps P none change m h step = h
on_entry-keeps P (some ref) change m h step = elim (Option-cases (lookup ref m.store)) [
  | inl gone ↦ rw (gone, on_entry) h
  | inr (e, there) ↦ rw (there, on_entry) (step ref e refl there)
]

-- A removed incoming flow keeps the allotment, whether its entry stays or goes.
pub handle_flow_removed_incoming-Allots :
    (init port : ℕ) (m : NatManager)
    → Allots init m
    → Allots init (handle_flow_removed_incoming port m)
unfolding handle_flow_removed_incoming
handle_flow_removed_incoming-Allots init port m a =
    on_entry-keeps (Allots init) (lookup port m.entries) _ m a λ ref e found there.
      flow_removed-Allots init port ref incoming e m (lookup-uses port m.entries found) a

-- Marking an entry of the store sets its MAC and port; its flow and its public port stay, and so do
-- the table and the free ports.
pub mark_installed_lem :
    (now ref mac port : ℕ) (m : NatManager) {e : NatEntry}
    → lookup ref m.store ≡ some e
    → let m' = mark_installed now ref mac port m in
      (e' : NatEntry) × (lookup ref m'.store ≡ some e')
      × ((e'.flow ≡ e.flow) × (e'.nat_public_port ≡ e.nat_public_port))
      × ((e'.host_public_mac ≡ some mac) × (e'.public_openflow_port ≡ some port))
      × ((m'.entries ≡ m.entries) × (m'.free_ports ≡ m.free_ports))
unfolding mark_installed update touch
mark_installed_lem now ref mac port m {e} there =
    let e' : NatEntry = touch now (record e {
      host_public_mac = some mac;
      public_openflow_port = some port;
      state = installed;
    }) in
    (
      e',
      rw (there, update) (ground (arith, lookup-insert ref ref e' m.store)),
      (refl, refl),
      (refl, refl),
      rw (there, update) (refl, refl),
    )
