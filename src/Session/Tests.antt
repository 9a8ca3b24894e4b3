-- ===== src/Session/Tests.antt =====
-- A session of three torrents in a small world.
pub mod Facts
pub mod Queue
pub mod Runs
pub mod Start
pub mod Turns
use bitswash.Prelude.{ℕ, ℤ, pos, negsuc, [], ◌∷◌, none, some, true, false, ◌==◌, ltb, if◌then◌else◌}
use bitswash.Torrent.{Torrent, TorrentConfig, TorrentInfo, TorrentState, StorageMode, FileEntry}
use bitswash.LibTorrent.{World, Activity, AddParams, TorrentStatus}
use bitswash.Session.{Session, Configuration}
use bitswash.Session.Thread.{Event, Thread, Input}
use bitswash.Session.Scheduler.{Survey, check_queue_item}
use bitswash.Session.Loading.{MagnetUri}

abbrev pub status : TorrentStatus
status = record {
  activity = Activity.downloading;
  has_metadata = true;
  need_save_resume = true;
  paused = true;
  progress_ppm = 500_000;
  total_payload_download = 10;
  total_payload_upload = 30;
  save_path = "/data/";
  status_name = "film";
}

abbrev pub params : AddParams
params = record {
  params_info = none;
  params_save_path = "";
  params_max_connections = pos 0;
  params_max_uploads = pos 0;
  params_upload_limit = pos 0;
  params_download_limit = pos 0;
  params_storage_mode = StorageMode.sparse;
  flag_paused = false;
  flag_duplicate_is_error = true;
  flag_auto_managed = true;
  flag_upload_mode = false;
}

abbrev pub film : FileEntry
film = record { path = "film.avi"; extension = "AVI"; file_offset = 0; file_size = 100 }

abbrev pub metadata : TorrentInfo
metadata = record {
  info_is_valid = true;
  info_name = "film";
  files = film ∷ [];
  piece_length = 16;
  trackers = [];
  web_seeds = [];
}

-- Handles below 100 are valid, no call throws, and no file exists.
abbrev pub world : World
world = record {
  handle_is_valid = λ h n. ltb n 100;
  handle_status = λ h n. status;
  handle_max_connections = λ h n. pos 10;
  piece_priorities = λ h n. 4 ∷ 4 ∷ 4 ∷ 4 ∷ 4 ∷ 4 ∷ 4 ∷ [];
  throws = λ h e. false;
  status_throws = λ h n. false;
  resume_params = λ h n. params;
  parse_magnet_uri = λ u. some params;
  make_magnet_uri = λ h n. "magnet:";
  torrent_file = λ h n. metadata;
  absolute_dir = λ p. p;
  dir_with_sep = λ p. p;
  dir_exists = λ h p. false;
  file_exists = λ h p. false;
  dir_opens = λ h p. false;
  copy_file_succeeds = λ h p. false;
  resume_file_exists = λ h n. true;
  conf_file_exists = λ h n. true;
  torrent_file_exists = λ h n. false;
  parts_file_exists = λ h n. false;
  is_working_directory = λ h p. false;
  temp_dir = "/tmp/";
  magnet_lines = λ h. none;
}

abbrev pub torrent_config : ℤ → TorrentState → TorrentConfig
torrent_config q z = record {
  qindex = q;
  download_path = "/data/";
  magnet_uri = "";
  enable_video_preview = true;
  storage_mode = StorageMode.sparse;
  torrent_state = z;
  torrent_ratio = pos 100;
  upload_limit = pos 0;
  download_limit = pos 0;
  torrent_max_uploads = pos 1;
  torrent_max_connections = pos 10;
  selected_file_size = 0;
  total_file_size = 0;
  files_priority = 7 ∷ [];
  trackers_url = [];
  stats = record { progress = 0; total_download = 0; total_upload = 0 };
}

abbrev pub torrent : ℕ → ℤ → TorrentState → Torrent
torrent h q z = record {
  name = "film";
  hash = h;
  handle = some h;
  info = some metadata;
  config = torrent_config q z;
  isvalid = true;
}

abbrev pub configuration : Configuration
configuration = record {
  max_start = 1;
  exclude_seed = false;
  max_connections = pos 50;
  max_uploads = pos 4;
  default_upload_limit = pos 0;
  default_download_limit = pos 0;
  save_path_history = "/data/" ∷ [];
}

-- Torrents 0, 1 and 2 stand in the queue, with the hashes 10, 20 and 30; 3 and above do not.
abbrev pub session : Session
session = record {
  store = λ r.
      if r == 0
      then torrent 10 (pos 0) TorrentState.start
      else if r == 1
      then torrent 20 (pos 1) TorrentState.start
      else if r == 2
      then torrent 30 (pos 2) TorrentState.queue
      else torrent 40 (negsuc 0) TorrentState.start;
  torrent_queue = 0 ∷ 1 ∷ 2 ∷ [];
  running_torrent_map =
      λ h. if h == 10 then some 0 else if h == 20 then some 1 else if h == 30 then some 2 else none;
  queue_torrent_set = λ h. false;
  metadata_queue = [];
  config = configuration;
  history = [];
}

abbrev pub uri : MagnetUri
uri = record { uri_name = "film"; uri_hash = 40; uri_url = "magnet:?xt=urn:btih:28" }

-- Torrent 0 was removed; the indices of the two that are left are those from before.
abbrev pub stale : Session
stale = record session {
  torrent_queue = 1 ∷ 2 ∷ [];
  running_torrent_map = λ h. if h == 20 then some 0 else if h == 30 then some 1 else none;
}

abbrev pub thread : Thread
thread = record { session = session; check_now = false; start_time = 100 }

abbrev pub silent : Input
silent = record { received = none; time_before = 106; time_after = 107 }

abbrev pub told : Input
told = record { received = some Event.queue_update; time_before = 103; time_after = 104 }

-- Both torrents that count as started, of which one may run.
abbrev pub surveyed : Survey
surveyed = record { session = session; start_torrents = 0 ∷ 1 ∷ []; queue_torrents = 2 ∷ [] }
