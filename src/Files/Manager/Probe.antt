-- ===== src/Files/Manager/Probe.antt =====
-- file_manager.py: a file that is opened for its size only and released at once.
use redes_hamelin.Base.{ℕ, ◌≡◌, ◌∙◌, false, none, some, List, arith, ok}
use redes_hamelin.Base.Dict.{lookup, contains, insert, erase, lookup-insert, lookup-erase}
use redes_hamelin.Text.{Text, text_Eq, text_eq_iff}
use redes_hamelin.Files.Reader.{open_reader}
use redes_hamelin.Files.Manager.{
  FileManager, basename, open_for_reading, release_for_reader, share_reader, last_reader_out,
}

module _ (path_of : Text → Text) (name : Text) (content : List ℕ) where
  -- A file of this name and content that nobody reads or writes.
  pub record IsIdle (m : FileManager) : Type 0 where
    pub plain : basename name ≡ name
    pub there : lookup (path_of name) m.files ≡ some content
    pub unread : lookup name m.reading_files ≡ none
    pub unwritten : contains name m.active_files ≡ false

  abbrev opened_of : FileManager → FileManager
  opened_of m = record m {
    reading_files = insert name (open_reader content) m.reading_files;
    readers_counter = insert name 1 m.readers_counter;
  }

  abbrev probed : FileManager → FileManager
  probed m = record m {
    reading_files = erase name (insert name (open_reader content) m.reading_files);
    readers_counter = erase name (insert name 1 m.readers_counter);
  }

  pub opens :
      (m : FileManager)
      → IsIdle m
      → open_for_reading path_of name m ≡ (ok (open_reader content), opened_of m)
  unfolding open_for_reading share_reader
  opens m h = ground (arith, h.plain, h.there, h.unwritten, h.unread)

  pub closes : (m : FileManager) → IsIdle m → release_for_reader name (opened_of m) ≡ probed m
  unfolding release_for_reader last_reader_out
  closes m h =
      let counted : lookup name (insert name 1 m.readers_counter) ≡ some 1 =
        lookup-insert name name 1 m.readers_counter ∙ ground (arith, text_eq_iff name name) in
      ground (arith, h.plain, counted)

  pub probed-IsIdle : (m : FileManager) → IsIdle m → IsIdle (probed m)
  probed-IsIdle m h = record {
    plain = h.plain;
    there = h.there;
    unread =
        lookup-erase name name (insert name (open_reader content) m.reading_files)
        ∙ ground (arith, text_eq_iff name name);
    unwritten = h.unwritten;
  }
