-- ===== src/Server.antt =====
-- TP 1 RDTP/src/lib/server and the two protocols that it runs, protocol/acceptor_protocol.py and
-- protocol/disconnector_protocol.py, with utils/atomic_map.py, whose lock makes each call on the map
-- one step. A protocol that is accepted, its queue and its StateContext are shared by the map and by
-- the thread that serves it: they are one Context, in the map.
pub mod Acceptor
pub mod Disconnector
pub mod Protocols
pub mod Admission
pub mod Farewell
pub mod Uploading
pub mod Handshake
pub mod Downloading
pub mod Download
use redes_hamelin.Base.{ℕ, Bool, true, Option, none, some, List, [], ◌∷◌, ◌++◌, if◌then◌else◌}
use redes_hamelin.Base.Dict.{Dict, lookup, insert}
use redes_hamelin.Event.{Address, address_Eq, Event}
use redes_hamelin.Context.{Context, is_halt, put}
use redes_hamelin.Files.Manager.{FileManager}

-- The handlers of common/upload_handler.py and common/download_handler.py, by the address of the
-- protocol that their thread runs.
pub data Handler : Type 0 where
  upload_handler download_handler : Address → Handler

pub record ClientHandler : Type 0 where
  pub handler : Handler
  pub is_alive : Bool

pub record Server : Type 0 where
  pub protocols : Dict Address Context
  pub file_manager : FileManager
  pub clients : List ClientHandler
  pub refusals : List (List ℕ × Address)
  pub farewells : List (List ℕ × Address)

-- `ListClients.addClient` and `ListClients.reap`
unfoldable pub add_client : ClientHandler → List ClientHandler → List ClientHandler
add_client h clients = clients ++ h ∷ []

unfoldable pub reap_clients : List ClientHandler → List ClientHandler
reap_clients [] = []
reap_clients (h ∷ hs) = let rest = reap_clients hs in if h.is_alive then h ∷ rest else rest

-- `UploadHandler(...)` or `DownloadHandler(...)`: alive until its run ends.
unfoldable pub new_handler : Handler → ClientHandler
new_handler h = record { handler = h; is_alive = true }

-- `reap`: the protocols that are over leave the map.
unfoldable pub reap : Dict Address Context → Dict Address Context
reap [] = []
reap ((addr, c) ∷ d) = let rest = reap d in if is_halt c.phase then rest else (addr, c) ∷ rest

-- `protocols.get(address)[0].put(event)`, where there is such a protocol.
unfoldable pub put_to : Address → Event → Dict Address Context → Dict Address Context
put_to addr e d = elim (lookup addr d) [ none ↦ d | some c ↦ insert addr (put e c) d ]
