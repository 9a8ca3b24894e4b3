-- ===== src/Settings/Disk.antt =====
-- `Configuration::Save` and `Load` (src/configuration.cpp) as a whole: the settings and the two
-- histories of paths, and the three files that keep them.
use bitswash.Prelude.{ℤ, List, [], Option, Bool}
use bitswash.Wx.{Chars, WxText, FileConfig}
use bitswash.Settings.File.{Settings, save_settings, load_settings}
use bitswash.Settings.Histories.{History, read_history, write_history}

pub record Configured (w : WxText) : Type 0 where
  pub settings : Settings w
  pub savepathhistory : History
  pub openpathhistory : History

-- The file of settings as `wxFileConfig` reads it, and the lines of the files `save_history` and
-- `open_history`, if they are there.
pub record Disk (f : FileConfig) : Type 0 where
  pub configfile : f.Cfg
  pub save_history : Option (List Chars)
  pub open_history : Option (List Chars)

-- Whether the files of the histories open or are created, and whether they are written.
pub record Writes : Type 0 where
  pub save_opened : Bool
  pub save_written : Bool
  pub open_opened : Bool
  pub open_written : Bool

module _ (w : WxText) (f : FileConfig) where
  -- `Save`, with `m_cfg` as it stands in memory: the object, `m_cfg` and the files after it.
  unfoldable pub save_configuration :
      Writes → Configured w → f.Cfg → Disk f → Configured w × f.Cfg × Disk f
  save_configuration ok s cfg disk =
      let (settings, cfg') = save_settings w f s.settings cfg in
      (
        record s { settings = settings },
        cfg',
        record {
          configfile = f.reopen cfg';
          save_history =
              write_history ok.save_opened ok.save_written s.savepathhistory disk.save_history;
          open_history =
              write_history ok.open_opened ok.open_written s.openpathhistory disk.open_history;
        },
      )

  -- The constructor, whose `Load` starts from empty histories.
  unfoldable pub load_configuration : ℤ × ℤ → Disk f → Configured w
  load_configuration screen disk = record {
    settings = load_settings w f screen disk.configfile;
    savepathhistory = read_history disk.save_history [];
    openpathhistory = read_history disk.open_history [];
  }
