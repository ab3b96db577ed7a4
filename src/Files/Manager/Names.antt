-- ===== src/Files/Manager/Names.antt =====
-- file_manager.py: the names in the tables have no directory, and `release` does not take it off.
use redes_hamelin.Base.{
  ℕ, ◌≡◌, refl, ap, subst, PyError, true, false, none, List, [], ◌∷◌, Result, ok, err, arith,
  Bool-cases, Result-cases, inl, inr, value_error,
}
use redes_hamelin.Base.Dict.{Dict, lookup, contains, insert, erase, lookup-insert, lookup-erase}
use redes_hamelin.Text.{Text, text_Eq, text_eq, text_eq_iff}
use redes_hamelin.Files.Writer.{FileWriter, open_file}
use redes_hamelin.Files.Manager.{
  FileManager, start_writer, drop_writer, release_reader, release, open_for_writing, basename,
  has_slash,
}

has_slash-basename : (name : Text) → has_slash (basename name) ≡ false
unfolding has_slash basename
has_slash-basename [] = refl
has_slash-basename (c ∷ cs) = ground (arith, has_slash-basename cs)

basename-apart : (name : Text) → has_slash name ≡ true → text_eq (basename name) name ≡ false
basename-apart name h = ground (arith, text_eq_iff (basename name) name, has_slash-basename name, h)

raised_not_returned :
    {x : PyError} {m m' : FileManager} {w : FileWriter}
    → ◌≡◌ {A = Result FileWriter × FileManager} (err x, m) (ok w, m')
    → ⊥
raised_not_returned h = cc

-- The writer of a name stays when another name is dropped.
still_written :
    (name : Text) (m m' : FileManager) (key : Text) (v : FileWriter) (files : Dict Text (List ℕ))
    → record m { files = files; active_files = insert key v m.active_files } ≡ m'
    → text_eq key name ≡ false
    → contains key (erase name m'.active_files) ≡ true
still_written name m m' key v files e apart =
    subst (λ (x : FileManager). contains key (erase name x.active_files) ≡ true) e
      (ground (
        arith,
        lookup-erase name key (insert key v m.active_files),
        lookup-insert key key v m.active_files,
        text_eq_iff key name,
        text_eq_iff name key,
        text_eq_iff key key,
        apart,
      ))

-- A writer is opened only if the code goes to the end.
started :
    (name path : Text) (size : ℕ) (m m' : FileManager) (w : FileWriter)
    → start_writer name path size m ≡ (ok w, m')
    → (v : FileWriter) × (record m {
      files = insert path v.content m.files;
      active_files = insert name v m.active_files;
    }
        ≡ m')
unfolding start_writer
started name path size m m' w h = elim (Result-cases (open_file size)) [
  | inl (v, e) ↦ (v, ap (λ (p : Result FileWriter × FileManager). p.1) (rw (e, start_writer) at h))
  | inr (x, e) ↦ absurd (raised_not_returned (rw (e, start_writer) at h))
]

module _ (path_of : Text → Text) where
  opened :
      (name : Text) (size : ℕ) (m m' : FileManager) (w : FileWriter)
      → open_for_writing path_of name size m ≡ (ok w, m')
      → start_writer (basename name) (path_of (basename name)) size m ≡ (ok w, m')
  unfolding open_for_writing
  opened name size m m' w h = elim (Bool-cases (contains (basename name) m.active_files)) [
    | inl b ↦ absurd (raised_not_returned (rw (b, open_for_writing) at h))
    | inr b ↦ elim (Bool-cases (contains (basename name) m.reading_files)) [
      | inl b' ↦ absurd (raised_not_returned (rw (b, b', open_for_writing) at h))
      | inr b' ↦ rw (b, b', open_for_writing) at h
    ]
  ]

  -- A release does nothing for a name that is in no table.
  release_unknown :
      (name : Text) (m : FileManager)
      → lookup name m.reading_files ≡ none
      → release name m ≡ ok (drop_writer name m)
  unfolding release release_reader
  release_unknown name m h = rw (h, release_reader, release)

  -- Where the name given has a slash, and the tables have no such name, `release` with the name that
  -- the file was opened for writing by returns, and leaves the file's writer in place: every later
  -- call to open it for writing raises, and changes nothing.
  pub slashed_release :
      (name : Text) (size later : ℕ) (m m' : FileManager) (w : FileWriter)
      → has_slash name ≡ true
      → lookup name m.reading_files ≡ none
      → open_for_writing path_of name size m ≡ (ok w, m')
      → (m'' : FileManager) × (release name m' ≡ ok m'')
        × (open_for_writing path_of name later m'' ≡ (err value_error, m''))
  unfolding open_for_writing drop_writer
  slashed_release name size later m m' w slash free h =
      let (v, e) =
        started (basename name) (path_of (basename name)) size m m' w (opened name size m m' w h) in
      let unread : lookup name m'.reading_files ≡ none =
        subst (λ (x : FileManager). lookup name x.reading_files ≡ none) e free in
      (
        drop_writer name m',
        release_unknown name m' unread,
        rw (still_written name m m' (basename name) v _ e (basename-apart name slash)),
      )
