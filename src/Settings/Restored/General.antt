-- ===== src/Settings/Restored/General.antt =====
-- The section of `General` comes back from a file as it was saved, but for the fields of
-- `restored_general`.
use bitswash.Prelude.{pos, [], true, false, ap, refl, ◌≡◌}
use bitswash.Wx.{WxText, FileConfig}
use bitswash.Settings.Reading.{Reader, IsUint}
use bitswash.Settings.Restored.Written.{Written, text_field, uint_field, bool_field}
use bitswash.Settings.General.{General, load_general, dir, in_seconds, start_limit}
use bitswash.Settings.File.{Settings, entries}

-- The values that the fields' types have.
pub record GeneralFits (g : General) : Type 0 where
  pub portmin : IsUint g.portmin
  pub portmax : IsUint g.portmax
  pub refreshtime : IsUint g.refreshtime
  pub exit_waiting_time : IsUint g.exit_waiting_time
  pub fastresume_save_time : IsUint g.fastresume_save_time
  pub max_start : IsUint g.max_start

-- What a `Load` makes of the fields that it does not give back as they were.
unfoldable pub restored_general : (w : WxText) (f : FileConfig) → General → General
restored_general w f g = record g {
  downloadpath = dir w (f.expand g.downloadpath);
  opentorrentpath = dir w (f.expand g.opentorrentpath);
  refreshtime = in_seconds (g.refreshtime);
  language = f.expand g.language;
  max_start = start_limit (g.max_start);
}

module _ (w : WxText) (f : FileConfig) {old : Reader} {read : Reader} (s : Settings w)
    (h : Written w f old (entries w f s) read) where
  pub load_general-written :
      GeneralFits s.general → load_general w f read ≡ restored_general w f s.general
  unfolding load_general restored_general entries
  load_general-written fits = λ i. record {
    downloadpath =
        ap (dir w) (text_field h "/Config/downloadpath" [] s.general.downloadpath refl) i;
    opentorrentpath =
        ap (dir w) (text_field h "/Config/opentorrentpath" [] s.general.opentorrentpath refl) i;
    portmin = uint_field h "/Config/portmin" (pos 16_881) s.general.portmin fits.portmin refl i;
    portmax = uint_field h "/Config/portmax" (pos 16_889) s.general.portmax fits.portmax refl i;
    refreshtime =
        ap in_seconds
          (uint_field h "/Config/refreshtime" (pos 5) s.general.refreshtime fits.refreshtime refl)
          i;
    exit_waiting_time =
        uint_field h "/Config/exit_waiting_time" (pos 10) s.general.exit_waiting_time
          fits.exit_waiting_time refl i;
    fastresume_save_time =
        uint_field h "/Config/fastresume_save_time" (pos 600) s.general.fastresume_save_time
          fits.fastresume_save_time refl i;
    max_start =
        ap start_limit
          (uint_field h "/Config/max_start" (pos 5) s.general.max_start fits.max_start refl) i;
    use_systray = bool_field h "/Config/use_systray" true s.general.use_systray refl i;
    hidetaskbar = bool_field h "/Config/hidetaskbar" false s.general.hidetaskbar refl i;
    exclude_seed = bool_field h "/Config/exclude_seed" true s.general.exclude_seed refl i;
    enable_upnp = bool_field h "/Config/enable_upnp" true s.general.enable_upnp refl i;
    enable_natpmp = bool_field h "/Config/enable_natpmp" true s.general.enable_natpmp refl i;
    enable_lsd = bool_field h "/Config/enable_lsd" true s.general.enable_lsd refl i;
    enable_metadata = bool_field h "/Config/enable_metadata" true s.general.enable_metadata refl i;
    enable_pex = bool_field h "/Config/enable_pex" true s.general.enable_pex refl i;
    language = text_field h "/Config/language" [] s.general.language refl i;
  }
