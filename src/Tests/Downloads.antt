-- ===== src/Tests/Downloads.antt =====
-- A client downloads the file "b", of two bytes.
use redes_hamelin.Base.{◌≡◌, refl, [], ◌∷◌, arith, ok}
use redes_hamelin.Base.Dict.{lookup}
use redes_hamelin.Text.{text_Eq, text_eq, encode}
use redes_hamelin.Service.{download, stop_and_wait}
use redes_hamelin.Files.Manager.{basename, has_slash, create}
use redes_hamelin.Files.Manager.Probe.{IsIdle}
use redes_hamelin.Sync.Client.{SyncClient, sync_client}
use redes_hamelin.Server.Acceptor.{connect}
use redes_hamelin.Server.Download.{DownloadHandshake, download_handshake}
use redes_hamelin.Tests.Servers.{path_of, describe, manager, new_server, no_protocol}

abbrev client : SyncClient
client = connect ([], 9000) download stop_and_wait (98 ∷ []) 0

encoded : encode (98 ∷ []) ≡ ok (98 ∷ [])
unfolding encode
encoded = refl

idle : IsIdle path_of (98 ∷ []) (1 ∷ 2 ∷ []) manager
unfolding basename has_slash create lookup text_eq
idle = record { plain = refl; there = refl; unread = refl; unwritten = refl }

download_handshake_example :
    DownloadHandshake path_of describe 5 stop_and_wait 2 ([], 7000) client new_server
unfolding connect sync_client
download_handshake_example =
    download_handshake path_of describe 5 stop_and_wait (1 ∷ 2 ∷ []) (98 ∷ []) ([], 7000) client
      new_server refl refl refl (omega arith) encoded (omega arith) (omega arith) idle no_protocol
