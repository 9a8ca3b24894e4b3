-- ===== src/LibTorrent.antt =====
-- What the session asks of code outside the repository: libtorrent and the file system.
-- Commands are recorded in order in a history; what a query answers is any function of the history
-- so far, so a handle may turn invalid after `remove_torrent`, and a file may vanish once removed.
use bitswash.Prelude.{ℕ, ℤ, String, List, Option, none, some, Bool, false}
use bitswash.Torrent.{TorrentConfig, TorrentInfo, AnnounceEntry, StorageMode}

-- `lt::torrent_status::state_t`.
pub data Activity : Type 0 where
  checking_files downloading_metadata downloading finished seeding allocating : Activity
  checking_resume_data : Activity

pub record TorrentStatus : Type 0 where
  pub activity : Activity
  pub has_metadata : Bool
  pub need_save_resume : Bool
  pub paused : Bool
  pub progress_ppm : ℕ
  pub total_payload_download : ℕ
  pub total_payload_upload : ℕ
  pub save_path : String
  pub status_name : String

-- `lt::add_torrent_params`, as far as the source writes it; `params_info` is `ti`.
pub record AddParams : Type 0 where
  pub params_info : Option TorrentInfo
  pub params_save_path : String
  pub params_max_connections : ℤ
  pub params_max_uploads : ℤ
  pub params_upload_limit : ℤ
  pub params_download_limit : ℤ
  pub params_storage_mode : StorageMode
  pub flag_paused : Bool
  pub flag_duplicate_is_error : Bool
  pub flag_auto_managed : Bool
  pub flag_upload_mode : Bool

-- What the session does to the world. A number is a libtorrent handle, but in `save_config`, where
-- it is the hash that names the configuration file.
pub data Effect : Type 0 where
  async_add_torrent : AddParams → Effect
  remove_torrent : ℕ → Bool → Effect
  pause_torrent graceful_pause resume clear_error : ℕ → Effect
  save_resume_data save_resume_data_if_modified : ℕ → Effect
  unset_auto_managed force_reannounce : ℕ → Effect
  queue_position_up queue_position_down queue_position_top queue_position_bottom : ℕ → Effect
  set_upload_limit set_download_limit set_max_uploads set_max_connections : ℕ → ℤ → Effect
  prioritize_files prioritize_pieces : ℕ → List ℕ → Effect
  replace_trackers : ℕ → List AnnounceEntry → Effect
  add_tracker : ℕ → AnnounceEntry → Effect
  add_url_seed add_http_seed : ℕ → String → Effect
  save_config : ℕ → TorrentConfig → Effect
  write_resume_file remove_resume_file remove_conf_file : ℕ → Effect
  remove_torrent_file remove_parts_file : ℕ → Effect
  remove_file remove_directory change_directory : String → Effect
  -- removes a directory only where it is empty
  remove_empty_directory : String → Effect
  copy_directory copy_file : String → String → Effect
  post_queue_update notify_metadata : Effect
  -- a line for the file of magnet URIs
  keep_magnet_uri : String → Effect

abbrev pub History : Type 0
History = List Effect

pub record World : Type 0 where
  -- `torrent_handle::is_valid`, `status` and `max_connections` of a handle that is not empty
  pub handle_is_valid : History → ℕ → Bool
  pub handle_status : History → ℕ → TorrentStatus
  pub handle_max_connections : History → ℕ → ℤ
  pub piece_priorities : History → ℕ → List ℕ
  -- the call throws a `std::exception`
  pub throws : History → Effect → Bool
  -- `status` of a handle throws
  pub status_throws : History → ℕ → Bool
  -- the parameters read from the resume file of a hash, or those of the default constructor
  pub resume_params : History → ℕ → AddParams
  -- `lt::parse_magnet_uri`; `none` is an error code
  pub parse_magnet_uri : String → Option AddParams
  pub make_magnet_uri : History → ℕ → String
  pub torrent_file : History → ℕ → TorrentInfo
  -- `wxFileName`: the absolute form of a directory, and the directory that holds one
  pub absolute_dir : String → String
  pub dir_with_sep : String → String
  pub dir_exists : History → String → Bool
  pub file_exists : History → String → Bool
  pub dir_opens : History → String → Bool
  pub copy_file_succeeds : History → String → Bool
  pub resume_file_exists : History → ℕ → Bool
  pub conf_file_exists : History → ℕ → Bool
  pub torrent_file_exists : History → ℕ → Bool
  pub parts_file_exists : History → ℕ → Bool
  -- the download path of a torrent is the working directory
  pub is_working_directory : History → String → Bool
  pub temp_dir : String
  -- the lines of the file of magnet URIs, or `none` if it cannot be opened
  pub magnet_lines : History → Option (List String)

-- `lt::torrent_handle::is_valid`: the handle of a torrent that was never added is not valid.
unfoldable pub is_valid : World → History → Option ℕ → Bool
is_valid w h none = false
is_valid w h (some n) = w.handle_is_valid h n
