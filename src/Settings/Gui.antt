-- ===== src/Settings/Gui.antt =====
-- The section `GUI` of `Configuration::Load` and `Save` (src/configuration.cpp): the frame's place,
-- the layout, and the texts that keep the columns of the lists.
use bitswash.Prelude.{ℕ, ℤ, pos, ltb_ℤ, List, [], ◌+ℤ◌, ◌==◌, ◌∷◌, if◌then◌else◌}
use bitswash.Wx.{Chars, Entry, WxText}
use bitswash.Settings.Reading.{Reader, read_text, read_int, read_uint}

abbrev pub least_ℤ : ℤ → ℤ → ℤ
least_ℤ a b = if ltb_ℤ b a then b else a

pub record Gui : Type 0 where
  pub x : ℤ
  pub y : ℤ
  pub w : ℤ
  pub h : ℤ
  pub guiversion : ℕ
  pub auiperspective : Chars
  pub torrentlistctrlsetting : Chars
  pub peerlistctrlsetting : Chars
  pub filelistctrlsetting : Chars
  pub trackerlistctrlsetting : Chars

abbrev pub gui_version : ℕ
gui_version = 3

module _ (w : WxText) where
  -- What `Save` writes, in this order.
  abbrev pub gui_entries : Gui → List Entry
  gui_entries g =
      ("/GUI/x", w.print g.x)
      ∷ ("/GUI/y", w.print g.y)
      ∷ ("/GUI/w", w.print g.w)
      ∷ ("/GUI/h", w.print (g.h +ℤ pos 54))
      ∷ ("/GUI/guiversion", w.print (pos g.guiversion))
      ∷ ("/GUI/auiperspective", g.auiperspective)
      ∷ ("/GUI/torrentlistctrlsetting", g.torrentlistctrlsetting)
      ∷ ("/GUI/peerlistctrlsetting", g.peerlistctrlsetting)
      ∷ ("/GUI/filelistctrlsetting", g.filelistctrlsetting)
      ∷ ("/GUI/trackerlistctrlsetting", g.trackerlistctrlsetting)
      ∷ []

  unfoldable pub load_gui : (ℤ × ℤ) → Reader → Gui
  load_gui screen read =
      let version = read_uint w read "/GUI/guiversion" (pos 0) in
      record {
        x = read_int w read "/GUI/x" (pos 0);
        y = read_int w read "/GUI/y" (pos 0);
        w = read_int w read "/GUI/w" (least_ℤ screen.0 (pos 800));
        h = read_int w read "/GUI/h" (least_ℤ screen.1 (pos 600));
        guiversion = if version == 0 then gui_version else version;
        auiperspective =
            if version == gui_version then read_text read "/GUI/auiperspective" [] else [];
        torrentlistctrlsetting = read_text read "/GUI/torrentlistctrlsetting" [];
        peerlistctrlsetting = read_text read "/GUI/peerlistctrlsetting" [];
        filelistctrlsetting = read_text read "/GUI/filelistctrlsetting" [];
        trackerlistctrlsetting = read_text read "/GUI/trackerlistctrlsetting" [];
      }
