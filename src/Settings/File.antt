-- ===== src/Settings/File.antt =====
-- `Configuration` (src/configuration.h) as `Load` makes it from the file of settings and as `Save`
-- writes it (src/configuration.cpp), section by section.
use bitswash.Prelude.{ℤ, List, ◌++◌}
use bitswash.Wx.{Entry, write_all, WxText, FileConfig}
use bitswash.Settings.Gui.{Gui, gui_entries, load_gui}
use bitswash.Settings.General.{General, general_entries, load_general}
use bitswash.Settings.Tuning.{Tuning, tuning_entries, load_tuning}
use bitswash.Settings.Protocol.{Protocol, protocol_entries, load_protocol}
use bitswash.Settings.Transfer.{Transfer, transfer_entries, load_transfer, clamp_transfer}
use bitswash.Settings.Defaults.{Defaults, defaults_entries, load_defaults, clamp_defaults}

module _ (w : WxText) where
  pub record Settings : Type 0 where
    pub gui : Gui
    pub general : General
    pub tuning : Tuning w
    pub protocol : Protocol
    pub transfer : Transfer
    pub defaults : Defaults

-- `Save` raises the numbers of uploads in the object, too.
unfoldable pub clamp : (w : WxText) → Settings w → Settings w
unfolding clamp_transfer clamp_defaults
clamp w s = record s { transfer = clamp_transfer s.transfer; defaults = clamp_defaults s.defaults }

module _ (w : WxText) (f : FileConfig) where
  -- All that `Save` writes, in this order.
  unfoldable pub entries : Settings w → List Entry
  unfolding clamp
  entries s0 =
      let s = clamp w s0 in
      gui_entries w s.gui
      ++ (general_entries w f s.general
          ++ (tuning_entries w f s.protocol.allow_multiple_connections_per_ip s.tuning
              ++ (protocol_entries w f s.protocol
                  ++ (transfer_entries w f s.transfer ++ defaults_entries w f s.defaults))))

  -- `Save`, up to the histories of paths: the object and the entries after it.
  unfoldable pub save_settings : Settings w → f.Cfg → Settings w × f.Cfg
  save_settings s c = (clamp w s, write_all f c (entries s))

  -- `Load`, up to the histories of paths; `screen` is the size that the system has for it.
  unfoldable pub load_settings : ℤ × ℤ → f.Cfg → Settings w
  load_settings screen c = record {
    gui = load_gui w screen (f.entry c);
    general = load_general w f (f.entry c);
    tuning = load_tuning w f (f.entry c);
    protocol = load_protocol w f (f.entry c);
    transfer = load_transfer w f (f.entry c);
    defaults = load_defaults w f (f.entry c);
  }
