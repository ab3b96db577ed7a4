-- ===== src/Files/Manager/Steps.antt =====
-- file_manager.py: each change of the tables is a step of the lock.
use redes_hamelin.Base.{ℕ, suc, ◌+◌, ◌≡◌, false, some, arith}
use redes_hamelin.Base.Dict.{lookup, contains, insert, erase, lookup-insert, lookup-erase}
use redes_hamelin.Text.{Text, text_Eq, text_eq_iff}
use redes_hamelin.Files.Reader.{FileReader}
use redes_hamelin.Files.Writer.{FileWriter}
use redes_hamelin.Files.Manager.{FileManager, drop_writer}
use redes_hamelin.Files.Manager.Lock.{
  holders, reader_comes, writer_comes, reader_goes, writer_goes, LockStep, reader_in, writer_in,
  reader_out, writer_out,
}

pub another-LockStep :
    (name : Text) (n : ℕ) (m : FileManager)
    → contains name m.active_files ≡ false
    → lookup name m.readers_counter ≡ some n
    → LockStep
        (holders m)
        (holders (record m { readers_counter = insert name (n + 1) m.readers_counter }))
        (reader_comes name)
another-LockStep name n m free e = reader_in name free (λ k.
    ground (arith, lookup-insert name k (n + 1) m.readers_counter, text_eq_iff name k, e, free))

pub first-LockStep :
    (name : Text) (r : FileReader) (m : FileManager)
    → contains name m.active_files ≡ false
    → contains name m.readers_counter ≡ false
    → LockStep
        (holders m)
        (holders (record m {
          reading_files = insert name r m.reading_files;
          readers_counter = insert name 1 m.readers_counter;
        }))
        (reader_comes name)
first-LockStep name r m free e =
    reader_in name free
      (λ k. ground (arith, lookup-insert name k 1 m.readers_counter, text_eq_iff name k, e, free))

pub writer-LockStep :
    (name path : Text) (w : FileWriter) (m : FileManager)
    → contains name m.active_files ≡ false
    → contains name m.readers_counter ≡ false
    → LockStep
        (holders m)
        (holders (record m {
          files = insert path w.content m.files;
          active_files = insert name w m.active_files;
        }))
        (writer_comes name)
writer-LockStep name path w m free e =
    writer_in name (ground (arith, free, e))
      (λ k. ground (arith, lookup-insert name k w m.active_files, text_eq_iff name k, e, free))

pub fewer-LockStep :
    (name : Text) (n : ℕ) (m : FileManager)
    → lookup name m.readers_counter ≡ some (suc n)
    → LockStep
        (holders m)
        (holders (record m { readers_counter = insert name n m.readers_counter }))
        (reader_goes name)
fewer-LockStep name n m e =
    reader_out name n (ground (arith, e))
      (λ k. ground (arith, lookup-insert name k n m.readers_counter, text_eq_iff name k, e))

pub unread-LockStep :
    (name : Text) (m : FileManager)
    → lookup name m.readers_counter ≡ some 1
    → LockStep
        (holders m)
        (holders (record m {
          reading_files = erase name m.reading_files;
          readers_counter = erase name m.readers_counter;
        }))
        (reader_goes name)
unread-LockStep name m e =
    reader_out name 0 (ground (arith, e))
      (λ k. ground (arith, lookup-erase name k m.readers_counter, text_eq_iff name k, e))

pub drop_writer-LockStep :
    (name : Text) (m : FileManager)
    → LockStep (holders m) (holders (drop_writer name m)) (writer_goes name)
unfolding drop_writer
drop_writer-LockStep name m =
    writer_out name (λ k. ground (arith, lookup-erase name k m.active_files, text_eq_iff name k))
