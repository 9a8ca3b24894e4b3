-- ===== src/Settings/Restored/Gui.antt =====
-- The section of `Gui` comes back from a file as it was saved, but for the fields of
-- `restored_gui`.
use bitswash.Prelude.{ℕ, ℤ, pos, [], ap, refl, ◌+ℤ◌, ◌≡◌, ◌==◌, if◌then◌else◌}
use bitswash.Wx.{WxText, FileConfig}
use bitswash.Settings.Reading.{Reader, IsInt, IsUint}
use bitswash.Settings.Restored.Written.{Written, text_field, int_field, long_uint_field, if_both}
use bitswash.Settings.Gui.{Gui, load_gui, gui_version, least_ℤ}
use bitswash.Settings.File.{Settings, entries}

-- The values that the fields' types have.
pub record GuiFits (g : Gui) : Type 0 where
  pub x : IsInt g.x
  pub y : IsInt g.y
  pub w : IsInt g.w
  pub h : IsInt (g.h +ℤ pos 54)
  pub guiversion : IsUint g.guiversion

-- What a `Load` makes of the fields that it does not give back as they were.
unfoldable pub restored_gui : FileConfig → Gui → Gui
restored_gui f g = record g {
  h = g.h +ℤ pos 54;
  guiversion = if g.guiversion == 0 then gui_version else g.guiversion;
  auiperspective = if g.guiversion == gui_version then f.expand g.auiperspective else [];
  torrentlistctrlsetting = f.expand g.torrentlistctrlsetting;
  peerlistctrlsetting = f.expand g.peerlistctrlsetting;
  filelistctrlsetting = f.expand g.filelistctrlsetting;
  trackerlistctrlsetting = f.expand g.trackerlistctrlsetting;
}

module _ (w : WxText) (f : FileConfig) {old : Reader} {read : Reader} (s : Settings w)
    (h : Written w f old (entries w f s) read) where
  pub load_gui-written :
      (screen : ℤ × ℤ) → GuiFits s.gui → load_gui w screen read ≡ restored_gui f s.gui
  unfolding load_gui restored_gui entries
  load_gui-written screen fits = λ i. record {
    x = int_field h "/GUI/x" (pos 0) s.gui.x fits.x refl i;
    y = int_field h "/GUI/y" (pos 0) s.gui.y fits.y refl i;
    w = int_field h "/GUI/w" (least_ℤ screen.0 (pos 800)) s.gui.w fits.w refl i;
    h = int_field h "/GUI/h" (least_ℤ screen.1 (pos 600)) (s.gui.h +ℤ pos 54) fits.h refl i;
    guiversion =
        ap (λ (n : ℕ). if n == 0 then gui_version else n)
          (long_uint_field h "/GUI/guiversion" (pos 0) s.gui.guiversion fits.guiversion refl) i;
    auiperspective =
        if_both gui_version []
          (long_uint_field h "/GUI/guiversion" (pos 0) s.gui.guiversion fits.guiversion refl)
          (text_field h "/GUI/auiperspective" [] s.gui.auiperspective refl) i;
    torrentlistctrlsetting =
        text_field h "/GUI/torrentlistctrlsetting" [] s.gui.torrentlistctrlsetting refl i;
    peerlistctrlsetting =
        text_field h "/GUI/peerlistctrlsetting" [] s.gui.peerlistctrlsetting refl i;
    filelistctrlsetting =
        text_field h "/GUI/filelistctrlsetting" [] s.gui.filelistctrlsetting refl i;
    trackerlistctrlsetting =
        text_field h "/GUI/trackerlistctrlsetting" [] s.gui.trackerlistctrlsetting refl i;
  }
