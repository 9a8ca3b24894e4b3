-- ===== src/Settings/Restored/Defaults.antt =====
-- The section of `Defaults` comes back from a file as it was saved, but for the fields of
-- `restored_defaults`.
use bitswash.Prelude.{pos, negsuc, true, false, ap, refl, ◌≡◌}
use bitswash.Wx.{WxText, FileConfig}
use bitswash.Settings.Reading.{Reader, IsInt, IsUint, two_uploads}
use bitswash.Settings.Restored.Written.{
  Written, IsInt-FitsLong, long_field, int_field, uint_field, uploads_field, bool_field,
}
use bitswash.Settings.Defaults.{Defaults, load_defaults, severity, line_count, log_files}
use bitswash.Settings.File.{Settings, entries}

-- The values that the fields' types have.
pub record DefaultsFits (d : Defaults) : Type 0 where
  pub default_state : IsInt d.default_state
  pub default_ratio : IsInt d.default_ratio
  pub default_upload_limit : IsInt d.default_upload_limit
  pub default_download_limit : IsInt d.default_download_limit
  pub default_max_connections : IsInt d.default_max_connections
  pub default_max_uploads : IsInt d.default_max_uploads
  pub log_severity : IsUint d.log_severity
  pub log_linecount : IsUint d.log_linecount
  pub max_log_files : IsUint d.max_log_files

-- What a `Load` makes of the fields that it does not give back as they were.
unfoldable pub restored_defaults : Defaults → Defaults
restored_defaults d = record d {
  default_max_uploads = two_uploads d.default_max_uploads;
  log_severity = severity (d.log_severity);
  log_linecount = line_count (d.log_linecount);
  max_log_files = log_files (d.max_log_files);
}

module _ (w : WxText) (f : FileConfig) {old : Reader} {read : Reader} (s : Settings w)
    (h : Written w f old (entries w f s) read) where
  pub load_defaults-written :
      DefaultsFits s.defaults → load_defaults w f read ≡ restored_defaults s.defaults
  unfolding load_defaults restored_defaults entries
  load_defaults-written fits = λ i. record {
    default_state =
        long_field h "/Torrent/default_state" (pos 2) s.defaults.default_state
          (IsInt-FitsLong _ fits.default_state) refl i;
    default_ratio =
        int_field h "/Torrent/default_ratio" (pos 150) s.defaults.default_ratio fits.default_ratio
          refl i;
    default_upload_limit =
        int_field h "/Torrent/default_upload_limit" (negsuc 0) s.defaults.default_upload_limit
          fits.default_upload_limit refl i;
    default_download_limit =
        int_field h "/Torrent/default_download_limit" (negsuc 0) s.defaults.default_download_limit
          fits.default_download_limit refl i;
    default_max_connections =
        int_field h "/Torrent/default_max_connections" (pos 50) s.defaults.default_max_connections
          fits.default_max_connections refl i;
    default_max_uploads =
        uploads_field h "/Torrent/default_max_uploads" (pos 4) s.defaults.default_max_uploads
          fits.default_max_uploads refl i;
    enable_video_preview =
        bool_field h "/Torrent/enable_video_preview" true s.defaults.enable_video_preview refl i;
    sequential_download =
        bool_field h "/Torrent/sequential_download" false s.defaults.sequential_download refl i;
    log_severity =
        ap severity
          (uint_field h "/Log/log_severity" (pos 2) s.defaults.log_severity fits.log_severity refl)
          i;
    log_linecount =
        ap line_count
          (uint_field h "/Log/log_linecount" (pos 100) s.defaults.log_linecount fits.log_linecount
            refl)
          i;
    log_file = bool_field h "/Log/log_file" false s.defaults.log_file refl i;
    max_log_files =
        ap log_files
          (uint_field h "/Log/log_max_files" (pos 5) s.defaults.max_log_files fits.max_log_files
            refl)
          i;
  }
