-- ===== src/Settings/Tests.antt =====
-- Instances of the theorems on the settings.
use bitswash.Prelude.{pos, negsuc, [], ◌∷◌, Option, none, some, true, String, ◌≡◌, refl, arith}
use bitswash.Wx.{Chars, codes}
use bitswash.Sample.{sample, sample_file, same_letters, same_letters-IsSame}
use bitswash.Settings.Gui.{Gui}
use bitswash.Settings.General.{General}
use bitswash.Settings.Tuning.{Tuning}
use bitswash.Settings.Protocol.{Protocol}
use bitswash.Settings.Transfer.{Transfer}
use bitswash.Settings.Defaults.{Defaults}
use bitswash.Settings.File.{Settings, load_settings}
use bitswash.Settings.Histories.{History, add_path, erase_same}
use bitswash.Settings.Disk.{Configured, Disk, Writes}
use bitswash.Settings.Recent.{recent, IsHistory, add_path-recent}
use bitswash.Settings.Usable.{IsUsable, load_settings-IsUsable}

abbrev some_gui : Gui
some_gui = record {
  x = pos 0;
  y = pos 0;
  w = pos 800;
  h = pos 600;
  guiversion = 3;
  auiperspective = codes "a";
  torrentlistctrlsetting = codes "a";
  peerlistctrlsetting = codes "a";
  filelistctrlsetting = codes "a";
  trackerlistctrlsetting = codes "a";
}

abbrev some_general : General
some_general = record {
  downloadpath = codes "a";
  opentorrentpath = codes "a";
  portmin = 16881;
  portmax = 16889;
  refreshtime = 5_000;
  exit_waiting_time = 10;
  fastresume_save_time = 600;
  max_start = 5;
  use_systray = true;
  hidetaskbar = true;
  exclude_seed = true;
  enable_upnp = true;
  enable_natpmp = true;
  enable_lsd = true;
  enable_metadata = true;
  enable_pex = true;
  language = codes "a";
}

abbrev some_tuning : Tuning (sample b'.')
some_tuning = record {
  dhtbootstrapnodes = codes "a";
  tracker_completion_timeout = pos 60;
  tracker_receive_timeout = pos 20;
  stop_tracker_timeout = pos 5;
  tracker_maximum_response_length = pos 1048576;
  piece_timeout = pos 10;
  request_queue_time = 300;
  max_allowed_in_request_queue = pos 250;
  max_out_request_queue = pos 200;
  whole_pieces_threshold = pos 20;
  peer_timeout = pos 120;
  urlseed_timeout = pos 20;
  urlseed_pipeline_size = pos 5;
  file_pool_size = pos 40;
  max_failcount = pos 3;
  min_reconnect_time = pos 60;
  peer_connect_timeout = pos 7;
  ignore_limits_on_local_network = true;
  connection_speed = pos 20;
  send_redundant_have = true;
  lazy_bitfields = true;
  inactivity_timeout = pos 600;
  unchoke_interval = pos 15;
  optimistic_unchoke_multiplier = pos 4;
  num_want = pos 200;
  initial_picker_threshold = pos 4;
  allowed_fast_set_size = pos 10;
  max_outstanding_disk_bytes_per_connection = pos 65536;
  handshake_timeout = pos 10;
  use_dht_as_fallback = true;
  free_torrent_hashes = true;
}

abbrev some_protocol : Protocol
some_protocol = record {
  useoscache = true;
  max_active_seeds = negsuc 0;
  enabled_protocols = pos 0;
  ignore_slow_torrents = true;
  rate_limit_ip_overhead = true;
  prefer_udp_trackers = true;
  choking_algorithm = pos 0;
  seed_choking_algorithm = pos 0;
  allow_multiple_connections_per_ip = true;
  rate_limit_peers_on_lan = true;
  rate_limit_utp = true;
  anonymous_mode = true;
  super_seeding = true;
  single_instance = true;
}

abbrev some_transfer : Transfer
some_transfer = record {
  connect_boost = 255;
  storagemode = pos 1;
  global_upload_limit = negsuc 0;
  global_download_limit = negsuc 0;
  global_max_connections = pos 250;
  global_max_uploads = pos 20;
  usedefault = true;
  dht_enabled = true;
  dht_port = 26881;
  dht_max_peers = pos 50;
  dht_search_branching = pos 5;
  dht_max_fail = pos 20;
  enc_enabled = true;
  enc_policy = pos 1;
  enc_level = pos 2;
  enc_prefer_rc4 = true;
}

abbrev some_defaults : Defaults
some_defaults = record {
  default_state = pos 2;
  default_ratio = pos 150;
  default_upload_limit = negsuc 0;
  default_download_limit = negsuc 0;
  default_max_connections = pos 50;
  default_max_uploads = pos 4;
  enable_video_preview = true;
  sequential_download = true;
  log_severity = 2;
  log_linecount = 100;
  log_file = true;
  max_log_files = 5;
}

abbrev pub some_settings : Settings (sample b'.')
some_settings = record {
  gui = some_gui;
  general = some_general;
  tuning = some_tuning;
  protocol = some_protocol;
  transfer = some_transfer;
  defaults = some_defaults;
}

abbrev configured : Configured (sample b'.')
configured = record {
  settings = some_settings;
  savepathhistory = codes "/films" ∷ codes "/music" ∷ [];
  openpathhistory = [];
}

abbrev no_disk : Disk sample_file
no_disk = record { configfile = λ k. none; save_history = none; open_history = none }

abbrev all_written : Writes
all_written = record {
  save_opened = true;
  save_written = true;
  open_opened = true;
  open_written = true;
}

-- A file with numbers out of range.
abbrev odd_file : String → Option Chars
odd_file k = some (codes "-7")

load_settings-IsUsable_example :
    IsUsable (load_settings (sample b'.') sample_file (pos 1_920, pos 1_080) odd_file)
load_settings-IsUsable_example =
    load_settings-IsUsable (sample b'.') sample_file (pos 1_920, pos 1_080) odd_file

abbrev paths : History
paths = codes "/Films" ∷ codes "/music" ∷ []

paths-IsHistory : IsHistory same_letters paths
unfolding same_letters
paths-IsHistory = record { at_most = omega arith; distinct = ((refl, tt), (tt, tt)) }

add_path-recent_example :
    (add_path same_letters (codes "/films") paths ≡ recent same_letters (codes "/films") paths)
    × IsHistory same_letters (add_path same_letters (codes "/films") paths)
add_path-recent_example =
    add_path-recent same_letters same_letters-IsSame (codes "/films") paths paths-IsHistory

-- The path takes its new spelling, and the last place.
add_path_moved : add_path same_letters (codes "/films") paths ≡ codes "/music" ∷ codes "/films" ∷ []
unfolding add_path erase_same same_letters
add_path_moved = refl
