-- ===== src/Files/Manager/Lock.antt =====
-- file_manager.py: what the manager promises, as a lock on each name that many readers or one writer
-- may hold, and what its operations do to the holders.
use redes_hamelin.Base.{
  ℕ, suc, ◌+◌, ◌≤◌, ◌≡◌, refl, Bool, true, false, Option, none, some, List, if◌then◌else◌, arith,
}
use redes_hamelin.Base.Dict.{Dict, lookup, contains, insert, erase, lookup-insert, lookup-erase}
use redes_hamelin.Text.{Text, text_Eq, text_eq, text_eq_iff}
use redes_hamelin.Files.Reader.{FileReader}
use redes_hamelin.Files.Writer.{FileWriter}
use redes_hamelin.Files.Manager.{FileManager, create, drop_writer}

abbrev pub count_of : Option ℕ → ℕ
count_of none = 0
count_of (some n) = n

-- How many readers a name has, and whether it has a writer.
abbrev pub holders : FileManager → Text → ℕ × Bool
holders m k = (count_of (lookup k m.readers_counter), contains k m.active_files)

pub data Action : Type 0 where
  reader_comes writer_comes reader_goes writer_goes : Text → Action

-- The lock, by name: a reader comes where no writer is, a writer comes where nobody is.
pub data LockStep (s t : Text → ℕ × Bool) : Action → Type 0 where
  reader_in :
      (name : Text)
      → (s name).1 ≡ false
      → ((k : Text) → t k ≡ (if text_eq name k then ((s name).0 + 1, false) else s k))
      → LockStep s t (reader_comes name)
  writer_in :
      (name : Text)
      → s name ≡ (0, false)
      → ((k : Text) → t k ≡ (if text_eq name k then (0, true) else s k))
      → LockStep s t (writer_comes name)
  reader_out :
      (name : Text) (n : ℕ)
      → (s name).0 ≡ suc n
      → ((k : Text) → t k ≡ (if text_eq name k then (n, (s name).1) else s k))
      → LockStep s t (reader_goes name)
  writer_out :
      (name : Text)
      → ((k : Text) → t k ≡ (if text_eq name k then ((s name).0, false) else s k))
      → LockStep s t (writer_goes name)

-- The two tables of readers have the same names, a counter counts somebody, and a name that is
-- written is not read.
pub record Consistent (m : FileManager) : Type 0 where
  pub same : (k : Text) → contains k m.reading_files ≡ contains k m.readers_counter
  pub positive : (k : Text) (n : ℕ) → lookup k m.readers_counter ≡ some n → 1 ≤ n
  pub apart : (k : Text) → contains k m.active_files ≡ true → contains k m.readers_counter ≡ false

pub create-Consistent : (files : Dict Text (List ℕ)) → Consistent (create files)
unfolding create lookup
create-Consistent files = record { same = λ k. refl; positive = λ k n h. cc; apart = λ k h. refl }

-- Another reader of a name that is read.
pub another-Consistent :
    (name : Text) (n : ℕ) (m : FileManager)
    → lookup name m.readers_counter ≡ some n
    → Consistent m
    → Consistent (record m { readers_counter = insert name (n + 1) m.readers_counter })
another-Consistent name n m e c = record {
  same = λ k.
      ground
        (arith, c.same k, lookup-insert name k (n + 1) m.readers_counter, text_eq_iff name k, e);
  positive = λ k i h. ground (
    arith,
    c.positive k i,
    lookup-insert name k (n + 1) m.readers_counter,
    text_eq_iff name k,
    e,
    h,
  );
  apart = λ k h.
      ground (
        arith,
        c.apart k,
        lookup-insert name k (n + 1) m.readers_counter,
        text_eq_iff name k,
        e,
        h,
      );
}

-- The first reader of a name that nobody writes.
pub first-Consistent :
    (name : Text) (r : FileReader) (m : FileManager)
    → contains name m.active_files ≡ false
    → Consistent m
    → Consistent (record m {
      reading_files = insert name r m.reading_files;
      readers_counter = insert name 1 m.readers_counter;
    })
first-Consistent name r m free c = record {
  same = λ k. ground (
    arith,
    c.same k,
    lookup-insert name k 1 m.readers_counter,
    lookup-insert name k r m.reading_files,
    text_eq_iff name k,
  );
  positive = λ k i h.
      ground
        (arith, c.positive k i, lookup-insert name k 1 m.readers_counter, text_eq_iff name k, h);
  apart = λ k h.
      ground
        (arith, c.apart k, lookup-insert name k 1 m.readers_counter, text_eq_iff name k, free, h);
}

-- A writer of a name that nobody reads.
pub writer-Consistent :
    (name path : Text) (w : FileWriter) (m : FileManager)
    → contains name m.reading_files ≡ false
    → Consistent m
    → Consistent (record m {
      files = insert path w.content m.files;
      active_files = insert name w m.active_files;
    })
writer-Consistent name path w m free c = record {
  same = c.same;
  positive = c.positive;
  apart = λ k h. ground (
    arith,
    c.apart k,
    c.same k,
    lookup-insert name k w m.active_files,
    text_eq_iff name k,
    free,
    h,
  );
}

-- A reader goes, and others stay.
pub fewer-Consistent :
    (name : Text) (n : ℕ) (m : FileManager)
    → lookup name m.readers_counter ≡ some (suc (suc n))
    → Consistent m
    → Consistent (record m { readers_counter = insert name (suc n) m.readers_counter })
fewer-Consistent name n m e c = record {
  same = λ k.
      ground
        (arith, c.same k, lookup-insert name k (suc n) m.readers_counter, text_eq_iff name k, e);
  positive = λ k i h. ground (
    arith,
    c.positive k i,
    lookup-insert name k (suc n) m.readers_counter,
    text_eq_iff name k,
    e,
    h,
  );
  apart = λ k h.
      ground (
        arith,
        c.apart k,
        lookup-insert name k (suc n) m.readers_counter,
        text_eq_iff name k,
        e,
        h,
      );
}

-- The last reader goes.
pub unread-Consistent :
    (name : Text) (m : FileManager)
    → Consistent m
    → Consistent (record m {
      reading_files = erase name m.reading_files;
      readers_counter = erase name m.readers_counter;
    })
unread-Consistent name m c = record {
  same = λ k. ground (
    arith,
    c.same k,
    lookup-erase name k m.readers_counter,
    lookup-erase name k m.reading_files,
    text_eq_iff name k,
  );
  positive = λ k i h.
      ground (arith, c.positive k i, lookup-erase name k m.readers_counter, text_eq_iff name k, h);
  apart = λ k h.
      ground (arith, c.apart k, lookup-erase name k m.readers_counter, text_eq_iff name k, h);
}

-- The writer goes.
pub drop_writer-Consistent :
    (name : Text) (m : FileManager) → Consistent m → Consistent (drop_writer name m)
unfolding drop_writer
drop_writer-Consistent name m c = record {
  same = c.same;
  positive = c.positive;
  apart =
      λ k h. ground (arith, c.apart k, lookup-erase name k m.active_files, text_eq_iff name k, h);
}
