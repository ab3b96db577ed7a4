-- ===== src/Files/Manager.antt =====
-- file_manager.py and atomic_int.py: who reads and who writes the files of a directory. A file is
-- found by its path, `os.path.normpath(os.path.join(dir, name))`, which is a parameter; an operation
-- gives its result with the state that it leaves, also where it raises. The lock makes each alone.
-- The counter of a name is an AtomicInt, so it starts at 1.
pub mod Lock
pub mod Steps
pub mod Calls
pub mod Names
pub mod Probe
use redes_hamelin.Base.{
  ℕ, suc, ◌+◌, ◌-◌, Bool, true, false, Option, none, some, List, [], ◌∷◌, ◌==◌, if◌then◌else◌,
  length, Result, ok, err, file_not_found, file_exists, value_error, key_error, leb,
}
use redes_hamelin.Base.Dict.{Dict, lookup, contains, insert, erase}
use redes_hamelin.Text.{Text, text_Eq}
use redes_hamelin.Files.Reader.{FileReader, open_reader}
use redes_hamelin.Files.Writer.{FileWriter, open_file}

-- `os.path.basename`: what follows the last slash.
unfoldable pub has_slash : Text → Bool
has_slash [] = false
has_slash (c ∷ cs) = if c == 47 then true else has_slash cs

unfoldable pub basename : Text → Text
unfolding has_slash
basename [] = []
basename (c ∷ cs) =
    let rest = basename cs in if has_slash cs then rest else if c == 47 then cs else c ∷ cs

pub record FileManager : Type 0 where
  pub files : Dict Text (List ℕ)
  pub active_files : Dict Text FileWriter
  pub readers_counter : Dict Text ℕ
  pub reading_files : Dict Text FileReader

-- `FileManager(filePath)` over a directory with these files.
unfoldable pub create : Dict Text (List ℕ) → FileManager
create files = record { files = files; active_files = []; readers_counter = []; reading_files = [] }

-- The reader of a file that has one, or a new one.
pub share_reader : Text → List ℕ → FileManager → Result FileReader × FileManager
share_reader name content m = elim (lookup name m.reading_files) [
  | some r ↦ elim (lookup name m.readers_counter) [
    | some n ↦ (ok r, record m { readers_counter = insert name (n + 1) m.readers_counter })
    | none ↦ (err key_error, m)
  ]
  | none ↦
      let r = open_reader content in
      (
        ok r,
        record m {
          reading_files = insert name r m.reading_files;
          readers_counter = insert name 1 m.readers_counter;
        },
      )
]

-- The end of `openWriter`: the file is emptied even if `_allocate` then raises.
unfoldable pub start_writer : Text → Text → ℕ → FileManager → Result FileWriter × FileManager
start_writer name path size m = elim (open_file size) [
  | err e ↦ (err e, record m { files = insert path [] m.files })
  | ok w ↦ (
    ok w,
    record m { files = insert path w.content m.files; active_files = insert name w m.active_files },
  )
]

-- One reader less, of the `n` that `release` finds: the test is for 1.
pub one_reader_less : Text → ℕ → FileManager → FileManager
one_reader_less name n m =
    if n == 1
    then record m {
      reading_files = erase name m.reading_files;
      readers_counter = erase name m.readers_counter;
    }
    else record m { readers_counter = insert name (n - 1) m.readers_counter }

-- The first half of `release`, which looks up the name as it is given.
pub release_reader : Text → FileManager → Result FileManager
unfolding one_reader_less
release_reader name m = elim (lookup name m.reading_files) [
  | none ↦ ok m
  | some r ↦ elim (lookup name m.readers_counter) [
    | none ↦ err key_error
    | some n ↦ ok (one_reader_less name n m)
  ]
]

-- `writer.close()` flushes; the writer leaves the table.
pub drop_writer : Text → FileManager → FileManager
drop_writer name m = record m { active_files = erase name m.active_files }

unfoldable pub release : Text → FileManager → Result FileManager
unfolding release_reader drop_writer
release name m = elim (release_reader name m) [ err e ↦ err e | ok m' ↦ ok (drop_writer name m') ]

-- Of the `n` readers that `releaseForReader` finds one goes; at 0 the file is no longer read.
pub last_reader_out : Text → ℕ → FileManager → FileManager
last_reader_out name n m =
    if leb (n - 1) 0
    then record m {
      reading_files = erase name m.reading_files;
      readers_counter = erase name m.readers_counter;
    }
    else record m { readers_counter = insert name (n - 1) m.readers_counter }

unfoldable pub release_for_reader : Text → FileManager → FileManager
unfolding last_reader_out
release_for_reader file_name m =
    let name = basename file_name in
    elim (lookup name m.readers_counter) [ none ↦ m | some n ↦ last_reader_out name n m ]

unfoldable pub release_for_writer : Text → FileManager → FileManager
unfolding drop_writer
release_for_writer file_name m = drop_writer (basename file_name) m

unfoldable pub check_rw_opened : Text → FileManager → Result (Unit {0})
check_rw_opened name m =
    if contains name m.active_files
    then err value_error
    else if contains name m.reading_files
    then err file_exists
    else ok tt

module _ (path_of : Text → Text) where
  unfoldable pub exists : Text → FileManager → Bool
  exists name m = contains (path_of name) m.files

  unfoldable pub open_for_reading : Text → FileManager → Result FileReader × FileManager
  unfolding share_reader
  open_for_reading file_name m =
      let name = basename file_name in
      elim (lookup (path_of name) m.files) [
        | none ↦ (err file_not_found, m)
        | some content ↦
            if contains name m.active_files
            then (err file_exists, m)
            else share_reader name content m
      ]

  unfoldable pub open_for_writing : Text → ℕ → FileManager → Result FileWriter × FileManager
  unfolding start_writer
  open_for_writing file_name size m =
      let name = basename file_name in
      if contains name m.active_files
      then (err value_error, m)
      else if contains name m.reading_files
      then (err file_exists, m)
      else start_writer name (path_of name) size m

  unfoldable pub get_file_size : Text → FileManager → Result ℕ
  get_file_size file_name m =
      let name = basename file_name in
      elim (lookup (path_of name) m.files) [
        | none ↦ err file_not_found
        | some content ↦
            if contains name m.active_files then err file_exists else ok (length content)
      ]
