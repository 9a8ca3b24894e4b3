-- ===== src/Settings/RoundTrip.antt =====
-- What comes back when `Configuration` is saved and loaded (src/configuration.cpp).
use bitswash.Wx.{WxText, FileConfig}
use bitswash.Settings.Reading.{Reader}
use bitswash.Settings.File.{Settings}
use bitswash.Settings.Disk.{Disk}
use bitswash.Settings.Restored.Written.{Written}
use bitswash.Settings.Restored.Gui.{GuiFits, restored_gui}
use bitswash.Settings.Restored.General.{GeneralFits, restored_general}
use bitswash.Settings.Restored.Tuning.{TuningFits, restored_tuning}
use bitswash.Settings.Restored.Protocol.{ProtocolFits, restored_protocol}
use bitswash.Settings.Restored.Transfer.{TransferFits, restored_transfer}
use bitswash.Settings.Restored.Defaults.{DefaultsFits, restored_defaults}

-- The values that the fields' types have.
pub record SettingsFits (w : WxText) (s : Settings w) : Type 0 where
  pub gui : GuiFits s.gui
  pub general : GeneralFits s.general
  pub tuning : TuningFits w s.tuning
  pub protocol : ProtocolFits s.protocol
  pub transfer : TransferFits s.transfer
  pub defaults : DefaultsFits s.defaults

module _ (w : WxText) (f : FileConfig) where
  unfoldable pub restored : Reader → Settings w → Settings w
  restored old s = record {
    gui = restored_gui f s.gui;
    general = restored_general w f s.general;
    tuning = restored_tuning w f s.tuning;
    protocol = restored_protocol f old s.protocol;
    transfer = restored_transfer s.transfer;
    defaults = restored_defaults s.defaults;
  }
