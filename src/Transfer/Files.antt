-- ===== src/Transfer/Files.antt =====
-- A transfer from the sender's file to the receiver's.
use redes_hamelin.Base.{ℕ, ◌+◌, ◌≡◌, ◌∙◌, List, length, ok, arith}
use redes_hamelin.Service.{ClientType, ProtocolType}
use redes_hamelin.Segment.{max_payload_size}
use redes_hamelin.Event.{FileDetails}
use redes_hamelin.Context.{Context}
use redes_hamelin.Files.Reader.{read_all_chunks, open_reader}
use redes_hamelin.Files.Reader.Chunks.{read_all_chunks_lem}
use redes_hamelin.Files.Writer.{FileWriter, open_file, total_length}
use redes_hamelin.Transfer.{Net, sender_flow, receiver_file, Reach}
use redes_hamelin.Transfer.Outcome.{Begins, begin, acknowledged_file_whole}

-- The chunks that `sendFile` reads.
abbrev pub chunks_of : List ℕ → List (List ℕ)
chunks_of content = read_all_chunks max_payload_size (open_reader content)

-- A transfer of the chunks that `sendFile` reads from a file begins with two contexts of one service
-- that have sent nothing and a new file of their size. In every state that it reaches under loss,
-- repetition, delay and reordering: once the sender's base is past the last chunk, the receiver's
-- file has the bytes of the sender's.
pub file_sent_whole :
    (content : List ℕ) (c : ClientType) (p : ProtocolType) (start : ℕ) {ctx_s ctx_r : Context}
    {w : FileWriter} (details_s details_r : FileDetails)
    → Begins c p ctx_s ctx_r
    → open_file (total_length (chunks_of content)) ≡ ok w
    → {s : Net}
    → Reach
        (chunks_of content)
        (begin (chunks_of content) ctx_s ctx_r details_s details_r start w)
        s
    → (sender_flow s.sender).base_number ≡ start + length (chunks_of content)
    → (receiver_file s.receiver).content ≡ content
file_sent_whole content c p start details_s details_r b opened r all =
    acknowledged_file_whole (chunks_of content) c p start details_s details_r b opened r all
    ∙ (read_all_chunks_lem max_payload_size content (omega arith)).0
