-- ===== src/Settings/General.antt =====
-- The section `Config` of `Configuration::Load` and `Save` (src/configuration.cpp), on platforms other
-- than Windows.
use bitswash.Prelude.{ℕ, pos, List, [], Bool, true, false, ltb, leb, ◌||◌, ◌/◌, ◌∷◌, if◌then◌else◌}
use bitswash.Wx.{Chars, Entry, WxText, FileConfig}
use bitswash.Settings.Reading.{Reader, as_int32, read_text, read_uint, read_bool}

pub record General : Type 0 where
  pub downloadpath : Chars
  pub opentorrentpath : Chars
  pub portmin : ℕ
  pub portmax : ℕ
  pub refreshtime : ℕ
  pub exit_waiting_time : ℕ
  pub fastresume_save_time : ℕ
  pub max_start : ℕ
  pub use_systray : Bool
  pub hidetaskbar : Bool
  pub exclude_seed : Bool
  pub enable_upnp : Bool
  pub enable_natpmp : Bool
  pub enable_lsd : Bool
  pub enable_metadata : Bool
  pub enable_pex : Bool
  pub language : Chars

-- An empty path stays empty.
unfoldable pub dir : WxText → Chars → Chars
dir w [] = []
dir w (c ∷ cs) = w.with_sep (c ∷ cs)

-- An old file has milliseconds.
unfoldable pub in_seconds : ℕ → ℕ
in_seconds n = if leb 1_000 n then n / 1_000 else n

unfoldable pub start_limit : ℕ → ℕ
start_limit n = if ltb 100 n || ltb n 1 then 2 else n

module _ (w : WxText) (f : FileConfig) where
  -- What `Save` writes, in this order.
  abbrev pub general_entries : General → List Entry
  general_entries g =
      ("/Config/downloadpath", g.downloadpath)
      ∷ ("/Config/opentorrentpath", g.opentorrentpath)
      ∷ ("/Config/portmin", w.print (as_int32 g.portmin))
      ∷ ("/Config/portmax", w.print (as_int32 g.portmax))
      ∷ ("/Config/refreshtime", w.print (as_int32 g.refreshtime))
      ∷ ("/Config/exit_waiting_time", w.print (as_int32 g.exit_waiting_time))
      ∷ ("/Config/fastresume_save_time", w.print (as_int32 g.fastresume_save_time))
      ∷ ("/Config/max_start", w.print (as_int32 g.max_start))
      ∷ ("/Config/use_systray", f.print_bool g.use_systray)
      ∷ ("/Config/hidetaskbar", f.print_bool g.hidetaskbar)
      ∷ ("/Config/exclude_seed", f.print_bool g.exclude_seed)
      ∷ ("/Config/enable_upnp", f.print_bool g.enable_upnp)
      ∷ ("/Config/enable_natpmp", f.print_bool g.enable_natpmp)
      ∷ ("/Config/enable_lsd", f.print_bool g.enable_lsd)
      ∷ ("/Config/enable_metadata", f.print_bool g.enable_metadata)
      ∷ ("/Config/enable_pex", f.print_bool g.enable_pex)
      ∷ ("/Config/language", g.language)
      ∷ []

  unfoldable pub load_general : Reader → General
  load_general read = record {
    downloadpath = dir w (read_text read "/Config/downloadpath" []);
    opentorrentpath = dir w (read_text read "/Config/opentorrentpath" []);
    portmin = read_uint w read "/Config/portmin" (pos 16_881);
    portmax = read_uint w read "/Config/portmax" (pos 16_889);
    refreshtime = in_seconds (read_uint w read "/Config/refreshtime" (pos 5));
    exit_waiting_time = read_uint w read "/Config/exit_waiting_time" (pos 10);
    fastresume_save_time = read_uint w read "/Config/fastresume_save_time" (pos 600);
    max_start = start_limit (read_uint w read "/Config/max_start" (pos 5));
    use_systray = read_bool f read "/Config/use_systray" true;
    hidetaskbar = read_bool f read "/Config/hidetaskbar" false;
    exclude_seed = read_bool f read "/Config/exclude_seed" true;
    enable_upnp = read_bool f read "/Config/enable_upnp" true;
    enable_natpmp = read_bool f read "/Config/enable_natpmp" true;
    enable_lsd = read_bool f read "/Config/enable_lsd" true;
    enable_metadata = read_bool f read "/Config/enable_metadata" true;
    enable_pex = read_bool f read "/Config/enable_pex" true;
    language = read_text read "/Config/language" [];
  }
