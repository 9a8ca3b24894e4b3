-- ===== src/Session/Tests/Start.antt =====
-- Instances of the theorems on the start and the end of the session.
use bitswash.Prelude.{negsuc, some, refl, arith, Returns, length}
use bitswash.Torrent.{TorrentState}
use bitswash.Session.Loading.{load_magnet_uri}
use bitswash.Session.Scanning.{TorrentSource, scan_file}
use bitswash.Session.Scanning.Repeated.{IsTwice, load_magnet_uri-scan_file}
use bitswash.Session.Closing.{save_counting}
use bitswash.Session.Closing.Waiting.{Awaited, save_counting-Awaited}
use bitswash.Session.Tests.{world, torrent_config, session, uri, metadata}
use bitswash.Session.Tests.Facts.{session-IsIndexed}

save_counting-Awaited_example :
    Returns (Awaited world session) (save_counting world (length session.torrent_queue) 0 0 session)
save_counting-Awaited_example = save_counting-Awaited world session-IsIndexed

-- A file with the torrent that the magnet URI names.
abbrev source : TorrentSource
source = record {
  address = 3;
  parsed = some (metadata, 40);
  loaded = torrent_config (negsuc 0) TorrentState.queue;
}

load_magnet_uri-scan_file_example : IsTwice 40 3 4 session (
    load_magnet_uri world 4
      (torrent_config (negsuc 0) TorrentState.stop)
      uri
      (scan_file source session))
load_magnet_uri-scan_file_example =
    load_magnet_uri-scan_file world source metadata 4 (torrent_config (negsuc 0) TorrentState.stop)
      uri session refl (omega arith) (omega arith) refl refl
