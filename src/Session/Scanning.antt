-- ===== src/Session/Scanning.antt =====
-- The start of the session: `ParseTorrent` and `ScanTorrentsDirectory`
-- (src/bittorrentsession.cpp). What libtorrent reads from a file, what a torrent's own settings
-- hold, and the order that `std::sort` gives are arguments; message boxes are left out.
pub mod Pushed
pub mod Repeated
use bitswash.Prelude.{
  ℕ, List, [], ◌∷◌, ◌++◌, Option, none, some, Bool, true, false, ◌==◌, if◌then◌else◌, ◌|>◌, String,
}
use bitswash.Torrent.{Torrent, TorrentConfig, TorrentState, TorrentInfo, AnnounceEntry, is_queue}
use bitswash.LibTorrent.{World}
use bitswash.Session.{Session, set_torrent, set_torrent_state, set_queue, find_torrent_by_hash}
use bitswash.Session.Loading.{MagnetUri, update_torrent_file_size, load_magnet_uri, restore_queue}

-- A torrent file: the address of the new `torrent_t`, what `lt::torrent_info` reads (`none` where it
-- fails or throws), with the hash, and the settings that `TorrentConfig` loads for that hash.
pub record TorrentSource : Type 0 where
  pub address : ℕ
  pub parsed : Option (TorrentInfo × ℕ)
  pub loaded : TorrentConfig

-- The trackers of the torrent where its settings have none.
unfoldable pub with_trackers : TorrentInfo → TorrentConfig → TorrentConfig
with_trackers info c = elim c.trackers_url [
  | [] ↦ record c { trackers_url = info.trackers }
  | e ∷ es ↦ c
]

unfoldable pub parsed_torrent : TorrentInfo → ℕ → TorrentConfig → Bool → Torrent
parsed_torrent info h c valid = record {
  name = info.info_name;
  hash = h;
  handle = none;
  info = some info;
  config = c;
  isvalid = valid;
}

-- `ParseTorrent`; `none` is the empty pointer. A torrent whose hash is 0 has no settings of its own.
unfoldable pub parse_torrent : TorrentSource → Session → Option ℕ × Session
parse_torrent f s = elim f.parsed [
  | none ↦ (none, s)
  | some (info, h) ↦
      if h == 0
      then (some f.address, set_torrent f.address (parsed_torrent info h f.loaded false) s)
      else (
        some f.address,
        s
            |> set_torrent f.address (parsed_torrent info h (with_trackers info f.loaded) true)
            |> update_torrent_file_size f.address,
      )
]

-- A torrent that was queued is to be started.
unfoldable pub wake : ℕ → Session → Session
wake r s =
    if is_queue (s.store r).config.torrent_state
    then set_torrent_state r TorrentState.start s
    else s

-- `push_back` unless the map has the hash.
unfoldable pub push_new : ℕ → Session → Session
push_new r s = elim (find_torrent_by_hash (s.store r).hash s) [
  | some i ↦ s
  | none ↦ set_queue (s.torrent_queue ++ r ∷ []) s
]

unfoldable pub scan_parsed : Option ℕ → Session → Session
scan_parsed none s = s
scan_parsed (some r) s = if (s.store r).isvalid then (s |> wake r |> push_new r) else s

-- One round of the loop over the directory.
unfoldable pub scan_file : TorrentSource → Session → Session
scan_file f s = let (found, s1) = parse_torrent f s in scan_parsed found s1

unfoldable pub scan_files : List TorrentSource → Session → Session
scan_files [] s = s
scan_files (f ∷ fs) s = scan_files fs (scan_file f s)

-- A line of the file of magnet URIs: `none` where it is empty or not valid, or else the URI with the
-- address of the new torrent and the settings that are loaded for it.
abbrev pub UriLine : Type 0
UriLine = Option (ℕ × TorrentConfig × MagnetUri)

unfoldable pub load_line : World → UriLine → Session → Session
load_line w none s = s
load_line w (some (r, c, u)) s = load_magnet_uri w r c u s

unfoldable pub load_lines : World → List UriLine → Session → Session
load_lines w [] s = s
load_lines w (l ∷ ls) s = load_lines w ls (load_line w l s)

-- `ScanTorrentsDirectory`: `files` is `none` where the directory does not open.
unfoldable pub scan_torrents_directory :
    World
    → Option (List TorrentSource)
    → List UriLine
    → (Session → List ℕ → List ℕ)
    → Session
    → Option Session
scan_torrents_directory w none lines sort s = some s
scan_torrents_directory w (some files) lines sort s =
    let s1 = s |> scan_files files |> load_lines w lines in
    restore_queue w (sort s1 s1.torrent_queue) s1
