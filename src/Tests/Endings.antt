-- ===== src/Tests/Endings.antt =====
-- A FIN from the disconnector.
use redes_hamelin.Base.{◌≡◌, ◌⊎◌, refl, [], none, some, true}
use redes_hamelin.Text.{text_eq}
use redes_hamelin.Segment.{Segment, is_fin, is_err}
use redes_hamelin.Event.{segment, abort}
use redes_hamelin.Context.{Context, halt, change_state, cancel_timeout, is_termination}
use redes_hamelin.Fin.{step, on_termination, from_address, finished}
use redes_hamelin.Fin.Halting.{step_halts}
use redes_hamelin.Tests.Datagrams.{context}

abbrev last : Segment
last = record { sequence_number = 5; payload_length = 0; flags = 1; payload = []; checksum = 0 }

abbrev after_fin : Context
after_fin = change_state halt (cancel_timeout (segment last (some ([], 9001))) context)

halts : step (segment last (some ([], 9001))) none context ≡ finished after_fin
unfolding step on_termination from_address is_fin is_err text_eq
halts = refl

step_halts_example :
    (after_fin.phase ≡ halt)
    × ((segment last (some ([], 9001)) ≡ abort)
        ⊎ ((seg : Segment) × (segment last (some ([], 9001))
              ≡ segment seg (some context.disconnector_address))
            × (is_termination seg ≡ true)))
step_halts_example = step_halts (segment last (some ([], 9001))) none context halts
