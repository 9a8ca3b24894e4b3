-- ===== src/Settings/Usable.antt =====
-- Whatever stands in the file of settings, `Configuration::Load` (src/configuration.cpp) gives
-- numbers in the ranges that the rest of the program relies on.
use bitswash.Prelude.{ℤ, pos, negsuc, ◌≤◌, ◌≤ℤ◌, ◌<◌, arith}
use bitswash.Wx.{WxText, FileConfig}
use bitswash.Settings.Reading.{read_uint, read_long, uint32, two_uploads}
use bitswash.Settings.General.{start_limit, load_general, in_seconds}
use bitswash.Settings.Transfer.{load_transfer}
use bitswash.Settings.Defaults.{severity, line_count, log_files, load_defaults}
use bitswash.Settings.File.{Settings, load_settings}

pub record IsUsable {w : WxText} (s : Settings w) : Type 0 where
  pub starts : (1 ≤ s.general.max_start) × (s.general.max_start ≤ 100)
  pub severities : (1 ≤ s.defaults.log_severity) × (s.defaults.log_severity ≤ 7)
  pub lines : (100 ≤ s.defaults.log_linecount) × (s.defaults.log_linecount ≤ 1_000)
  pub files : (1 ≤ s.defaults.max_log_files) × (s.defaults.max_log_files ≤ 20)
  pub uploads : pos 2 ≤ℤ s.defaults.default_max_uploads
  pub global_uploads : pos 2 ≤ℤ s.transfer.global_max_uploads
  -- far below what an `unsigned int` of milliseconds holds
  pub refresh : s.general.refreshtime < 4_294_968

module _ (w : WxText) (f : FileConfig) where
  uint32_bound : (z : ℤ) → uint32 z < 4_294_967_296
  unfolding uint32
  uint32_bound (pos n) = omega arith
  uint32_bound (negsuc n) = omega arith

  -- Whatever the file of settings holds, `Configuration::Load` gives a limit of 1 to 100 started
  -- torrents, a log severity of 1 to 7, 100 to 1000 lines of log, 1 to 20 log files, at least 2
  -- uploads both for each torrent and in all, and a refresh time below 4294968.
  pub load_settings-IsUsable : (screen : ℤ × ℤ) (c : f.Cfg) → IsUsable (load_settings w f screen c)
  unfolding load_settings load_general load_transfer load_defaults start_limit severity line_count
      log_files two_uploads in_seconds read_uint
  load_settings-IsUsable screen c = record {
    starts = ground arith;
    severities = ground arith;
    lines = ground arith;
    files = ground arith;
    uploads = ground arith;
    global_uploads = ground arith;
    refresh = ground (arith, uint32_bound (read_long w (f.entry c) "/Config/refreshtime" (pos 5)));
  }
