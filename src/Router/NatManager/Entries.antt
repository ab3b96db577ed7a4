-- ===== src/Router/NatManager/Entries.antt =====
-- nat_manager.py: every operation leaves each entry of the table under its own port.
use redes_hamelin.Base.{
  ℕ, ◌+◌, ◌≡◌, refl, ap, ◌∙◌, some, List, [], ◌∷◌, arith, ◌==◌, nat_Eq, Option-cases, Bool-cases,
  inl, inr, All, All-map,
}
use native.Mathlib.Decide.{ℕ_discrete}
use redes_hamelin.Base.Dict.{Dict, lookup, insert, erase, lookup-insert, lookup_inserted}
use redes_hamelin.Router.NatEntry.{
  Protocol, FlowInfo, NatEntry, Direction, outgoing, incoming, mark_flow_removed,
}
use redes_hamelin.Router.NatEntry
use redes_hamelin.Router.NatManager.{
  NatManager, find_outgoing, remove_entry, assign_public_port, remove_all, mark_installed,
  expired_ports, evict_stale_entries, add_entry, get_or_create_outgoing_entry, update, flow_removed,
}
use redes_hamelin.Router.NatManager.Ports.{assign_cases}
use redes_hamelin.Router.NatManager.Keys.{IsOwn, Keyed}

All-erase : (P : ℕ × ℕ → Type 0) (q : ℕ) (d : Dict ℕ ℕ) → All P d → All P (erase q d)
unfolding erase
All-erase P q [] a = tt
All-erase P q ((r, v) ∷ d) (h, a) = elim (Bool-cases (r == q)) [
  | inl e ↦ rw e (All-erase P q d a)
  | inr e ↦ rw e (h, All-erase P q d a)
]

All-insert :
    (P : ℕ × ℕ → Type 0) (q v : ℕ) (d : Dict ℕ ℕ) → P (q, v) → All P d → All P (insert q v d)
unfolding insert
All-insert P q v [] new a = (new, tt)
All-insert P q v ((r, w) ∷ d) new (h, a) = elim (Bool-cases (r == q)) [
  | inl e ↦ rw e (new, a)
  | inr e ↦ rw e (h, All-insert P q v d new a)
]

remove_entry-Keyed : (q : ℕ) (m : NatManager) → Keyed m → Keyed (remove_entry q m)
unfolding remove_entry
remove_entry-Keyed q m k = record {
  own = All-erase (IsOwn m.store) q m.entries k.own;
  below = k.below;
}

remove_all-Keyed : (ports : List ℕ) (m : NatManager) → Keyed m → Keyed (remove_all ports m)
unfolding remove_all
remove_all-Keyed [] m k = k
remove_all-Keyed (q ∷ ports) m k =
    remove_all-Keyed ports (remove_entry q m) (remove_entry-Keyed q m k)

pub evict-Keyed : (now : ℕ) (m : NatManager) → Keyed m → Keyed (evict_stale_entries now m).1
unfolding evict_stale_entries
evict-Keyed now m k = remove_all-Keyed (expired_ports now m.store m.entries) m k

assign-Keyed : (m : NatManager) → Keyed m → Keyed (assign_public_port m).1
assign-Keyed m k = elim (assign_cases m) [
  | inl e ↦ rw e (record { own = k.own; below = k.below })
  | inr (q, ports, e) ↦ rw e (record { own = k.own; below = k.below })
]

new_port : (now q : ℕ) (flow : FlowInfo) → (NatEntry.new now flow q).nat_public_port ≡ q
unfolding NatEntry.new
new_port now q flow = refl

insert-Keyed :
    (now q : ℕ) (flow : FlowInfo) (m : NatManager)
    → Keyed m
    → Keyed (record m {
      entries = insert q m.next_ref m.entries;
      store = insert m.next_ref (NatEntry.new now flow q) m.store;
      next_ref = m.next_ref + 1;
    })
insert-Keyed now q flow m k = record {
  own =
      All-insert (IsOwn store') q m.next_ref m.entries
        (NatEntry.new now flow q, here, new_port now q flow)
        (All-map (IsOwn m.store) (IsOwn store')
          (λ (port, ref) (e, at, same). (e, kept ref e at, same)) m.entries k.own);
  below = λ ref e at. elim (lookup_inserted m.next_ref ref (NatEntry.new now flow q) m.store at) [
    | inl (same, _) ↦ omega arith
    | inr before ↦ omega (arith, k.below ref e before)
  ];
}
  where
    store' : Dict ℕ NatEntry
    store' = insert m.next_ref (NatEntry.new now flow q) m.store

    here : lookup m.next_ref store' ≡ some (NatEntry.new now flow q)
    here = ground (arith, lookup-insert m.next_ref m.next_ref (NatEntry.new now flow q) m.store)

    kept : (ref : ℕ) (e : NatEntry) → lookup ref m.store ≡ some e → lookup ref store' ≡ some e
    kept ref e at =
        ground
          (arith, k.below ref e at, lookup-insert m.next_ref ref (NatEntry.new now flow q) m.store)

pub get_or_create-Keyed :
    (now : ℕ) (flow : FlowInfo) (m : NatManager)
    → Keyed m
    → Keyed (get_or_create_outgoing_entry now flow m).1
unfolding get_or_create_outgoing_entry add_entry
get_or_create-Keyed now flow m k =
    elim (Option-cases (
      find_outgoing flow.protocol flow.host_private_ip flow.host_private_port flow.host_public_ip
        flow.host_public_port (evict_stale_entries now m).1)) [
          | inl e ↦
              rw (e, get_or_create_outgoing_entry)
                (insert-Keyed now (assign_public_port (evict_stale_entries now m).1).0 flow _
                  (assign-Keyed (evict_stale_entries now m).1 (evict-Keyed now m k)))
          | inr (ref, e) ↦ rw (e, get_or_create_outgoing_entry) (evict-Keyed now m k)
        ]

IsOwn-updated :
    (ref : ℕ) (change : NatEntry → NatEntry) (store : Dict ℕ NatEntry) {x : NatEntry}
    → lookup ref store ≡ some x
    → ((e : NatEntry) → (change e).nat_public_port ≡ e.nat_public_port)
    → (port r : ℕ) → IsOwn store (port, r)
    → IsOwn (insert ref (change x) store) (port, r)
IsOwn-updated ref change store {x} there same port r (e, at, own) = elim (ℕ_discrete ref r) [
  | yes here ↦
      let at_ref : lookup ref store ≡ some e = ap (λ n. lookup n store) here ∙ at in
      let the_entry : x ≡ e = cc in
      (
        change x,
        ground (arith, lookup-insert ref r (change x) store, here),
        same x ∙ ap (λ (y : NatEntry). y.nat_public_port) the_entry ∙ own,
      )
  | no other ↦ (e, ground (arith, lookup-insert ref r (change x) store, other, at), own)
]

-- A change of an entry that leaves its port alone.
update-Keyed :
    (ref : ℕ) (change : NatEntry → NatEntry) (m : NatManager)
    → ((e : NatEntry) → (change e).nat_public_port ≡ e.nat_public_port)
    → Keyed m
    → Keyed (update ref change m)
unfolding update
update-Keyed ref change m same k = elim (Option-cases (lookup ref m.store)) [
  | inl none_there ↦ rw (none_there, update) k
  | inr (x, there) ↦
      rw (there, update)
        (record {
          own =
              All-map (IsOwn m.store) (IsOwn (insert ref (change x) m.store))
                (λ (port, r) own. IsOwn-updated ref change m.store there same port r own) m.entries
                k.own;
          below = λ r e at. elim (lookup_inserted ref r (change x) m.store at) [
            | inl (here, _) ↦ omega (arith, k.below ref x there)
            | inr before ↦ k.below r e before
          ];
        })
]

pub mark_installed-Keyed :
    (now ref mac port : ℕ) (m : NatManager) → Keyed m → Keyed (mark_installed now ref mac port m)
unfolding mark_installed NatEntry.touch
mark_installed-Keyed now ref mac port m k = update-Keyed ref _ m (λ e. refl) k

port-mark_flow_removed :
    (direction : Direction) (e : NatEntry)
    → (mark_flow_removed direction e).0.nat_public_port ≡ e.nat_public_port
unfolding mark_flow_removed
port-mark_flow_removed outgoing e = refl
port-mark_flow_removed incoming e = refl

pub flow_removed-Keyed :
    (direction : Direction) (port ref : ℕ) (e : NatEntry) (m : NatManager)
    → Keyed m
    → Keyed (flow_removed direction port ref e m)
unfolding flow_removed
flow_removed-Keyed direction port ref e m k =
    let change : NatEntry → NatEntry = λ x. (mark_flow_removed direction x).0 in
    let k' = update-Keyed ref change m (port-mark_flow_removed direction) k in
    elim (Bool-cases (mark_flow_removed direction e).1) [
      | inl both ↦ rw (both, flow_removed) (remove_entry-Keyed port (update ref change m) k')
      | inr one ↦ rw (one, flow_removed) k'
    ]
