-- ===== src/Settings/Defaults.antt =====
-- The defaults for torrents and the section `Log` of `Configuration::Load` and `Save`
-- (src/configuration.cpp).
use bitswash.Prelude.{ℕ, ℤ, pos, negsuc, List, [], Bool, true, false, ltb, ◌||◌, ◌∷◌, if◌then◌else◌}
use bitswash.Wx.{Entry, WxText, FileConfig}
use bitswash.Settings.Reading.{
  Reader, as_int32, read_long, read_int, read_uint, read_bool, two_uploads,
}

pub record Defaults : Type 0 where
  pub default_state : ℤ
  pub default_ratio : ℤ
  pub default_upload_limit : ℤ
  pub default_download_limit : ℤ
  pub default_max_connections : ℤ
  pub default_max_uploads : ℤ
  pub enable_video_preview : Bool
  pub sequential_download : Bool
  pub log_severity : ℕ
  pub log_linecount : ℕ
  pub log_file : Bool
  pub max_log_files : ℕ

unfoldable pub severity : ℕ → ℕ
severity n = if ltb 7 n || ltb n 1 then 2 else n

unfoldable pub line_count : ℕ → ℕ
line_count n = if ltb 1_000 n || ltb n 100 then 100 else n

unfoldable pub log_files : ℕ → ℕ
log_files n = let m = if ltb n 1 then 5 else n in if ltb 20 m then 20 else m

-- `Save` first raises the number of uploads to 2.
unfoldable pub clamp_defaults : Defaults → Defaults
clamp_defaults d = record d { default_max_uploads = two_uploads d.default_max_uploads }

module _ (w : WxText) (f : FileConfig) where
  -- What `Save` writes, in this order.
  abbrev pub defaults_entries : Defaults → List Entry
  defaults_entries d =
      ("/Torrent/default_state", w.print d.default_state)
      ∷ ("/Torrent/default_ratio", w.print d.default_ratio)
      ∷ ("/Torrent/default_upload_limit", w.print d.default_upload_limit)
      ∷ ("/Torrent/default_download_limit", w.print d.default_download_limit)
      ∷ ("/Torrent/default_max_connections", w.print d.default_max_connections)
      ∷ ("/Torrent/default_max_uploads", w.print d.default_max_uploads)
      ∷ ("/Torrent/enable_video_preview", f.print_bool d.enable_video_preview)
      ∷ ("/Torrent/sequential_download", f.print_bool d.sequential_download)
      ∷ ("/Log/log_severity", w.print (as_int32 d.log_severity))
      ∷ ("/Log/log_linecount", w.print (as_int32 d.log_linecount))
      ∷ ("/Log/log_file", f.print_bool d.log_file)
      ∷ ("/Log/log_max_files", w.print (as_int32 d.max_log_files))
      ∷ []

  unfoldable pub load_defaults : Reader → Defaults
  load_defaults read = record {
    default_state = read_long w read "/Torrent/default_state" (pos 2);
    default_ratio = read_int w read "/Torrent/default_ratio" (pos 150);
    default_upload_limit = read_int w read "/Torrent/default_upload_limit" (negsuc 0);
    default_download_limit = read_int w read "/Torrent/default_download_limit" (negsuc 0);
    default_max_connections = read_int w read "/Torrent/default_max_connections" (pos 50);
    default_max_uploads = two_uploads (read_int w read "/Torrent/default_max_uploads" (pos 4));
    enable_video_preview = read_bool f read "/Torrent/enable_video_preview" true;
    sequential_download = read_bool f read "/Torrent/sequential_download" false;
    log_severity = severity (read_uint w read "/Log/log_severity" (pos 2));
    log_linecount = line_count (read_uint w read "/Log/log_linecount" (pos 100));
    log_file = read_bool f read "/Log/log_file" false;
    max_log_files = log_files (read_uint w read "/Log/log_max_files" (pos 5));
  }
