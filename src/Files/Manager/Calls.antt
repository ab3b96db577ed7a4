-- ===== src/Files/Manager/Calls.antt =====
-- file_manager.py: what any sequence of calls does to the holders of the files.
use redes_hamelin.Base.{
  ◌++◌, append-nil, append_assoc, ℕ, zero, suc, ◌≡◌, refl, sym, subst, Bool, false, none, some,
  List, [], ◌∷◌, Result, ok, err, arith, Option-cases, Bool-cases, Result-cases, inl, inr,
}
use redes_hamelin.Base.Dict.{Dict, lookup, contains, insert}
use redes_hamelin.Text.{Text, text_Eq}
use redes_hamelin.Files.Reader.{FileReader, open_reader}
use redes_hamelin.Files.Writer.{open_file}
use redes_hamelin.Files.Manager.{
  FileManager, create, share_reader, start_writer, one_reader_less, last_reader_out, drop_writer,
  release_reader, release, release_for_reader, release_for_writer, open_for_reading,
  open_for_writing, basename,
}
use redes_hamelin.Files.Manager.Lock.{
  create-Consistent, Action, reader_comes, writer_comes, reader_goes, writer_goes, holders,
  LockStep, Consistent, another-Consistent, first-Consistent, writer-Consistent, fewer-Consistent,
  unread-Consistent, drop_writer-Consistent,
}
use redes_hamelin.Files.Manager.Steps.{
  another-LockStep, first-LockStep, writer-LockStep, fewer-LockStep, unread-LockStep,
  drop_writer-LockStep,
}

-- Steps of the lock, one after another.
pub data LockRun (s : Text → ℕ × Bool) : List Action → (Text → ℕ × Bool) → Type 0 where
  rest : {t : Text → ℕ × Bool} → ((k : Text) → t k ≡ s k) → LockRun s [] t
  then_step :
      {u t : Text → ℕ × Bool} {done : List Action} {a : Action}
      → LockRun s done u
      → LockStep u t a
      → LockRun s (done ++ a ∷ []) t

-- A call leaves consistent tables, and did these actions on the lock.
abbrev pub Refines : FileManager → List Action → FileManager → Type 0
Refines m done m' = Consistent m' × LockRun (holders m) done (holders m')

unchanged : (m : FileManager) → Consistent m → Refines m [] m
unchanged m c = (c, rest (λ k. refl))

stepped :
    (m m' : FileManager) {a : Action}
    → Consistent m'
    → LockStep (holders m) (holders m') a
    → Refines m (a ∷ []) m'
stepped m m' c s = (c, then_step (rest (λ k. refl)) s)

-- A reader goes where there is one.
abbrev pub leaving : Text → ℕ → List Action
leaving name zero = []
leaving name (suc n) = reader_goes name ∷ []

abbrev pub if_ok {ℓ} : {A : Type ℓ} → Result A → Action → List Action
if_ok (ok x) a = a ∷ []
if_ok (err e) a = []

not_counted :
    (name : Text) (m : FileManager)
    → contains name m.reading_files ≡ false
    → Consistent m
    → contains name m.readers_counter ≡ false
not_counted name m e c = ground (arith, c.same name, e)

not_written :
    (name : Text) (m : FileManager) {n : ℕ}
    → lookup name m.readers_counter ≡ some n
    → Consistent m
    → contains name m.active_files ≡ false
not_written name m e c = ground (arith, c.apart name, e)

uncounted :
    (name : Text) (m : FileManager) {r : FileReader}
    → lookup name m.reading_files ≡ some r
    → lookup name m.readers_counter ≡ none
    → Consistent m
    → ⊥
uncounted name m e e' c = ground (arith, c.same name, e, e')

share_reader-Refines :
    (name : Text) (content : List ℕ) (m : FileManager)
    → contains name m.active_files ≡ false
    → Consistent m
    → Refines m
        (if_ok (share_reader name content m).0 (reader_comes name))
        (share_reader name content m).1
unfolding share_reader
share_reader-Refines name content m free c = elim (Option-cases (lookup name m.reading_files)) [
  | inl e ↦
      rw (e, share_reader)
        (stepped m _ (first-Consistent name (open_reader content) m free c) (
          first-LockStep name (open_reader content) m free
            (not_counted name m (ground (arith, e)) c)))
  | inr (r, e) ↦ elim (Option-cases (lookup name m.readers_counter)) [
    | inl e' ↦ absurd (uncounted name m e e' c)
    | inr (n, e') ↦
        rw (e, e', share_reader)
          (stepped m _ (another-Consistent name n m e' c) (another-LockStep name n m free e'))
  ]
]

start_writer-Refines :
    (name path : Text) (size : ℕ) (m : FileManager)
    → contains name m.active_files ≡ false
    → contains name m.reading_files ≡ false
    → Consistent m
    → Refines m
        (if_ok (start_writer name path size m).0 (writer_comes name))
        (start_writer name path size m).1
unfolding start_writer
start_writer-Refines name path size m free unread c = elim (Result-cases (open_file size)) [
  | inl (w, e) ↦
      rw (e, start_writer)
        (stepped m _ (writer-Consistent name path w m unread c)
          (writer-LockStep name path w m free (not_counted name m unread c)))
  | inr (x, e) ↦
      rw (e, start_writer)
        (record { same = c.same; positive = c.positive; apart = c.apart }, rest (λ k. refl))
]

one_reader_less-several :
    (name : Text) (n : ℕ) (m : FileManager)
    → one_reader_less name (suc (suc n)) m
      ≡ record m { readers_counter = insert name (suc n) m.readers_counter }
unfolding one_reader_less
one_reader_less-several name n m = ground arith

one_reader_less-Refines :
    (name : Text) (n : ℕ) (m : FileManager)
    → lookup name m.readers_counter ≡ some n
    → Consistent m
    → Refines m (leaving name n) (one_reader_less name n m)
unfolding one_reader_less
one_reader_less-Refines name zero m e c = absurd (omega (arith, c.positive name 0 e))
one_reader_less-Refines name (suc zero) m e c =
    stepped m _ (unread-Consistent name m c) (unread-LockStep name m e)
one_reader_less-Refines name (suc (suc n)) m e c =
    rw (one_reader_less-several name n m)
      (stepped m _ (fewer-Consistent name n m e c) (fewer-LockStep name (suc n) m e))

last_reader_out-several :
    (name : Text) (n : ℕ) (m : FileManager)
    → last_reader_out name (suc (suc n)) m
      ≡ record m { readers_counter = insert name (suc n) m.readers_counter }
unfolding last_reader_out
last_reader_out-several name n m = ground arith

last_reader_out-Refines :
    (name : Text) (n : ℕ) (m : FileManager)
    → lookup name m.readers_counter ≡ some n
    → Consistent m
    → Refines m (leaving name n) (last_reader_out name n m)
unfolding last_reader_out
last_reader_out-Refines name zero m e c = absurd (omega (arith, c.positive name 0 e))
last_reader_out-Refines name (suc zero) m e c =
    stepped m _ (unread-Consistent name m c) (unread-LockStep name m e)
last_reader_out-Refines name (suc (suc n)) m e c =
    rw (last_reader_out-several name n m)
      (stepped m _ (fewer-Consistent name n m e c) (fewer-LockStep name (suc n) m e))

LockRun-trans :
    {s t u : Text → ℕ × Bool} {done more : List Action}
    → LockRun t more u
    → LockRun s done t
    → LockRun s (done ++ more) u
LockRun-trans {s} {u = u} {done = done} (LockRun.rest h) r =
    subst (λ l. LockRun s l u) (sym (append-nil done))
      (subst (LockRun s done) (λ i x. sym (h x) i) r)
LockRun-trans {s} {u = u} {done = done} (LockRun.then_step {done = more} {a = a} q h) r =
    subst (λ l. LockRun s l u) (append_assoc done more (a ∷ []))
      (LockRun.then_step (LockRun-trans q r) h)

drop_writer-Refines :
    (name : Text) (m m' : FileManager) {done : List Action}
    → Refines m done m'
    → Refines m (done ++ writer_goes name ∷ []) (drop_writer name m')
drop_writer-Refines name m m' (c, r) =
    (drop_writer-Consistent name m' c, LockRun.then_step r (drop_writer-LockStep name m'))

unread :
    (name : Text) (m : FileManager)
    → lookup name m.reading_files ≡ none
    → Consistent m
    → lookup name m.readers_counter ≡ none
unread name m e c = ground (arith, c.same name, e)

-- On consistent tables `release` does not raise.
release_reader-returns :
    (name : Text) (m : FileManager)
    → Consistent m
    → (m' : FileManager) × (release_reader name m ≡ ok m')
      × Refines m (leaving name (holders m name).0) m'
unfolding release_reader
release_reader-returns name m c = elim (Option-cases (lookup name m.reading_files)) [
  | inl e ↦ (m, rw (e, release_reader), rw (unread name m e c) (unchanged m c))
  | inr (r, e) ↦ elim (Option-cases (lookup name m.readers_counter)) [
    | inl e' ↦ absurd (uncounted name m e e' c)
    | inr (n, e') ↦ (
      one_reader_less name n m,
      rw (e, e', release_reader),
      rw e' (one_reader_less-Refines name n m e' c),
    )
  ]
]

release-returns :
    (name : Text) (m : FileManager)
    → Consistent m
    → (m' : FileManager) × (release name m ≡ ok m')
      × Refines m (leaving name (holders m name).0 ++ writer_goes name ∷ []) m'
unfolding release
release-returns name m c =
    let (m', e, r) = release_reader-returns name m c in
    (drop_writer name m', rw (e, release), drop_writer-Refines name m m' r)

-- The calls, with what `os.path` makes of a name.
pub data Call : Type 0 where
  opens_for_reading : Text → Call
  opens_for_writing : Text → ℕ → Call
  releases : Text → Call
  releases_for_reader : Text → Call
  releases_for_writer : Text → Call

abbrev left_by : FileManager → Result FileManager → FileManager
left_by m (ok m') = m'
left_by m (err e) = m

module _ (path_of : Text → Text) where
  -- The tables after a call, whether it returns or raises.
  unfoldable pub after : Call → FileManager → FileManager
  after (opens_for_reading name) m = (open_for_reading path_of name m).1
  after (opens_for_writing name size) m = (open_for_writing path_of name size m).1
  after (releases name) m = left_by m (release name m)
  after (releases_for_reader name) m = release_for_reader name m
  after (releases_for_writer name) m = release_for_writer name m

  -- What a call does to the lock: where an opening returns, a reader or a writer comes, where it
  -- raises, nobody does; a release takes out what it finds.
  unfoldable pub actions : Call → FileManager → List Action
  actions (opens_for_reading name) m =
      if_ok (open_for_reading path_of name m).0 (reader_comes (basename name))
  actions (opens_for_writing name size) m =
      if_ok (open_for_writing path_of name size m).0 (writer_comes (basename name))
  actions (releases name) m = leaving name (holders m name).0 ++ writer_goes name ∷ []
  actions (releases_for_reader name) m = leaving (basename name) (holders m (basename name)).0
  actions (releases_for_writer name) m = writer_goes (basename name) ∷ []

  unfoldable pub all_actions : List Call → FileManager → List Action
  unfolding actions after
  all_actions [] m = []
  all_actions (c ∷ cs) m = actions c m ++ all_actions cs (after c m)

  unfoldable pub after_all : List Call → FileManager → FileManager
  unfolding after
  after_all [] m = m
  after_all (c ∷ cs) m = after_all cs (after c m)

  open_for_reading-Refines :
      (name : Text) (m : FileManager)
      → Consistent m
      → Refines m (actions (opens_for_reading name) m) (open_for_reading path_of name m).1
  unfolding open_for_reading actions
  open_for_reading-Refines name m c =
      elim (Option-cases (lookup (path_of (basename name)) m.files)) [
        | inl e ↦ rw (e, open_for_reading) (unchanged m c)
        | inr (content, e) ↦ elim (Bool-cases (contains (basename name) m.active_files)) [
          | inl b ↦ rw (e, b, open_for_reading) (unchanged m c)
          | inr b ↦ rw (e, b, open_for_reading) (share_reader-Refines (basename name) content m b c)
        ]
      ]

  open_for_writing-Refines :
      (name : Text) (size : ℕ) (m : FileManager)
      → Consistent m
      → Refines m (actions (opens_for_writing name size) m) (open_for_writing path_of name size m).1
  unfolding open_for_writing actions
  open_for_writing-Refines name size m c =
      elim (Bool-cases (contains (basename name) m.active_files)) [
        | inl b ↦ rw (b, open_for_writing) (unchanged m c)
        | inr b ↦ elim (Bool-cases (contains (basename name) m.reading_files)) [
          | inl b' ↦ rw (b, b', open_for_writing) (unchanged m c)
          | inr b' ↦
              rw (b, b', open_for_writing)
                (start_writer-Refines (basename name) (path_of (basename name)) size m b b' c)
        ]
      ]

  pub after-Refines :
      (call : Call) (m : FileManager) → Consistent m → Refines m (actions call m) (after call m)
  unfolding after actions release_for_reader release_for_writer
  after-Refines (opens_for_reading name) m c = open_for_reading-Refines name m c
  after-Refines (opens_for_writing name size) m c = open_for_writing-Refines name size m c
  after-Refines (releases name) m c = let (m', e, r) = release-returns name m c in rw e r
  after-Refines (releases_for_reader name) m c =
      elim (Option-cases (lookup (basename name) m.readers_counter)) [
        | inl e ↦ rw (e, release_for_reader) (unchanged m c)
        | inr (n, e) ↦ rw (e, release_for_reader) (last_reader_out-Refines (basename name) n m e c)
      ]
  after-Refines (releases_for_writer name) m c =
      drop_writer-Refines (basename name) m m (unchanged m c)

  calls_refine :
      (cs : List Call) (m m' : FileManager) {done : List Action}
      → Refines m done m'
      → Refines m (done ++ all_actions cs m') (after_all cs m')
  unfolding after_all all_actions
  calls_refine [] m m' {done} r = subst (λ l. Refines m l m') (sym (append-nil done)) r
  calls_refine (call ∷ cs) m m' {done} (c, r) =
      let (c', r') = after-Refines call m' c in
      subst (λ l. Refines m l (after_all cs (after call m')))
        (append_assoc done (actions call m') (all_actions cs (after call m')))
        (calls_refine cs m (after call m') (c', LockRun-trans r' r))

  -- After any calls on a new manager, whether they return or raise, the tables are consistent, and
  -- the calls have done their actions on a lock that many readers or one writer may hold, one after
  -- another: an opening lets a reader or a writer of its name in exactly where it returns, a release
  -- takes out what it finds.
  pub calls_follow_lock :
      (files : Dict Text (List ℕ)) (cs : List Call)
      → Consistent (after_all cs (create files))
        × LockRun
            (holders (create files))
            (all_actions cs (create files))
            (holders (after_all cs (create files)))
  calls_follow_lock files cs =
      calls_refine cs (create files) (create files)
        (unchanged (create files) (create-Consistent files))
