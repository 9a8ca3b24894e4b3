-- ===== src/Session/Requests.antt =====
-- The public operations of `BitTorrentSession` (src/bittorrentsession.h) as one: what the user
-- interface asks for, beside what the session's thread does. Each request, each alert and each
-- pass of the scheduler is taken as one step, so that a run is a sequence of these in any order;
-- what happens between the critical sections of one operation is left out.
pub mod Interleaving
use bitswash.Prelude.{ℕ, ℤ, List, [], ◌∷◌, String, Option, none, some, Bool, ◌>>=◌, ◌≡◌}
use bitswash.Torrent.{TorrentConfig, TorrentInfo}
use bitswash.LibTorrent.{World}
use bitswash.Session.{Session}
use bitswash.Session.Alerts.{Alert, handle_alert}
use bitswash.Session.Membership.{add_torrent, merge_torrent, merge_magnet_uri}
use bitswash.Session.Moving.{move_torrent_top, move_torrent_bottom}
use bitswash.Session.Loading.{MagnetUri, load_magnet_uri}
use bitswash.Session.Scheduler.{check_queue_item}
use bitswash.Session.ByIndex.{
  remove_at, start_at, stop_at, queue_at, pause_at, move_up_at, move_down_at, reannounce_at,
  recheck_at, configure_files_priority_at, configure_trackers_at, configure_at,
}

-- By position where there is an overload for it that is defined, and else by the torrent's address.
pub data Request : Type 0 where
  add : ℕ → Request
  load : ℕ → TorrentConfig → MagnetUri → Request
  merge : ℕ → TorrentInfo → Request
  merge_magnet : ℕ → List String → List String → Request
  remove : ℤ → Bool → Request
  start : ℤ → Bool → Request
  stop queue pause reannounce recheck : ℤ → Request
  move_up move_down : ℤ → Request
  move_top move_bottom : ℕ → Request
  configure_files configure_tracker_list configure_all : ℤ → Request

unfoldable pub serve : World → Request → Session → Option Session
serve w (Request.add r) s = some (add_torrent w r s).1
serve w (Request.load r c u) s = some (load_magnet_uri w r c u s)
serve w (Request.merge r i) s = some (merge_torrent w r i s)
serve w (Request.merge_magnet r ts us) s = some (merge_magnet_uri w r ts us s)
serve w (Request.remove z deletedata) s = remove_at w z deletedata s
serve w (Request.start z force) s = some (start_at w z force s)
serve w (Request.stop z) s = some (stop_at w z s)
serve w (Request.queue z) s = some (queue_at w z s)
serve w (Request.pause z) s = some (pause_at w z s)
serve w (Request.reannounce z) s = some (reannounce_at w z s)
serve w (Request.recheck z) s = some (recheck_at w z s)
serve w (Request.move_up z) s = move_up_at w z s
serve w (Request.move_down z) s = move_down_at w z s
serve w (Request.move_top r) s = move_torrent_top w r s
serve w (Request.move_bottom r) s = move_torrent_bottom w r s
serve w (Request.configure_files z) s = configure_files_priority_at w z s
serve w (Request.configure_tracker_list z) s = some (configure_trackers_at w z s)
serve w (Request.configure_all z) s = configure_at w z s

-- A turn of the user interface or of the session's thread.
pub data Turn : Type 0 where
  ask : Request → Turn
  answer : Alert → Turn
  check : Turn

unfoldable pub take_turn : World → Turn → Session → Option Session
take_turn w (ask q) s = serve w q s
take_turn w (answer a) s = handle_alert w a s
take_turn w check s = some (check_queue_item w s)
