-- ===== src/Torrent.antt =====
-- The data of a torrent: `torrent_t` (src/bittorrentsession.h) and the part of `TorrentConfig`
-- (src/torrentconfig.h) that the session reads and writes. A hash is the 160-bit number that its
-- text stands for; the texts key the source's maps. `fileindex` belongs to the file list control
-- and is left out; a torrent always has its `config`, which both constructors of torrents set.
use bitswash.Prelude.{
  ℕ, ℤ, pos, ltb_ℤ, String, List, Option, none, some, Bool, true, false, if◌then◌else◌,
}

-- `enum torrent_state`.
pub data TorrentState : Type 0 where
  stop start queue pause force_start : TorrentState

-- `TORRENT_STATE_START` or `TORRENT_STATE_FORCE_START`.
abbrev pub is_started : TorrentState → Bool
is_started TorrentState.start = true
is_started TorrentState.force_start = true
is_started _ = false

-- The states in which the source puts a torrent into libtorrent when it is added.
abbrev pub is_active : TorrentState → Bool
is_active TorrentState.start = true
is_active TorrentState.force_start = true
is_active TorrentState.pause = true
is_active _ = false

abbrev pub is_stop : TorrentState → Bool
is_stop TorrentState.stop = true
is_stop _ = false

abbrev pub is_queue : TorrentState → Bool
is_queue TorrentState.queue = true
is_queue _ = false

abbrev pub is_pause : TorrentState → Bool
is_pause TorrentState.pause = true
is_pause _ = false

abbrev pub is_force_start : TorrentState → Bool
is_force_start TorrentState.force_start = true
is_force_start _ = false

-- File priorities, 0 to 7.
abbrev pub file_none : ℕ
file_none = 0

abbrev pub file_normal : ℕ
file_normal = 4

abbrev pub file_highest : ℕ
file_highest = 7

-- `lt::storage_mode_t`.
pub data StorageMode : Type 0 where
  allocate sparse : StorageMode

-- `lt::announce_entry`, as far as the source reads it.
pub record AnnounceEntry : Type 0 where
  pub url : String
  pub tier : ℕ

-- `stats_t`; `progress` is in millionths, as libtorrent's `progress_ppm`.
pub record Stats : Type 0 where
  pub progress : ℕ
  pub total_download : ℕ
  pub total_upload : ℕ

-- A file of `lt::file_storage`: its path, the extension of its name, where it starts in the torrent,
-- and its size.
pub record FileEntry : Type 0 where
  pub path : String
  pub extension : String
  pub file_offset : ℕ
  pub file_size : ℕ

pub data WebSeed : Type 0 where
  url_seed http_seed other_seed : String → WebSeed

-- `lt::torrent_info`, as far as the source reads it.
pub record TorrentInfo : Type 0 where
  pub info_is_valid : Bool
  pub info_name : String
  pub files : List FileEntry
  pub piece_length : ℕ
  pub trackers : List AnnounceEntry
  pub web_seeds : List WebSeed

pub record TorrentConfig : Type 0 where
  pub qindex : ℤ
  pub download_path : String
  pub magnet_uri : String
  pub enable_video_preview : Bool
  pub storage_mode : StorageMode
  pub torrent_state : TorrentState
  pub torrent_ratio : ℤ
  pub upload_limit : ℤ
  pub download_limit : ℤ
  pub torrent_max_uploads : ℤ
  pub torrent_max_connections : ℤ
  pub selected_file_size : ℕ
  pub total_file_size : ℕ
  pub files_priority : List ℕ
  pub trackers_url : List AnnounceEntry
  pub stats : Stats

-- `Save` raises `m_torrent_max_uploads` to 2 before it writes it.
abbrev pub clamp_uploads : TorrentConfig → TorrentConfig
clamp_uploads c =
    if ltb_ℤ c.torrent_max_uploads (pos 2) then record c { torrent_max_uploads = pos 2 } else c

pub record Torrent : Type 0 where
  pub name : String
  pub hash : ℕ
  pub handle : Option ℕ
  pub info : Option TorrentInfo
  pub config : TorrentConfig
  pub isvalid : Bool

-- `torrent->info && torrent->info->is_valid()`
abbrev pub has_info : Torrent → Bool
has_info t = elim t.info [ none ↦ false | some i ↦ i.info_is_valid ]
