-- ===== src/TorrentFile/RoundTrip.antt =====
-- What comes back when a torrent's settings are saved and loaded (src/torrentconfig.cpp).
use bitswash.Prelude.{
  ℕ, pos, negsuc, ◌<◌, ◌^◌, List, [], ◌∷◌, map, Option, none, some, String, true, false, str_eq,
  eq_iff, ◌≡◌, refl, ap, ◌∙◌, sym, arith, Bool-cases, inl, inr, eqb_ℤ, ◌&&◌, if◌then◌else◌,
}
use bitswash.Wx.{
  Chars, Entry, All, codes, stored, wrote, seen, FitsLong, write_all, entry-write_all, WxText,
  IsText, FileConfig, IsFileConfig,
}
use bitswash.Settings.Reading.{Reader, IsInt, IsUint8, read_text, two_uploads}
use bitswash.Settings.File.{Settings}
use bitswash.Settings.Restored.Written.{
  Written, IsInt-FitsLong, text_field, long_field, int_field, uint8_field, uploads_field,
  bool_field, old_text,
}
use bitswash.TorrentFile.{
  Totals, StoredTorrent, stats_text, stats_of, raise_uploads, torrent_entries, save_torrent,
  read_size, load_torrent,
}
use bitswash.TorrentFile.Codec.{
  priorities_text, valid_priority, tracker_entries, trackers_of, StoredTracker, priorities_of,
}
use bitswash.TorrentFile.Recovered.{
  IsKept, priorities_of-priorities_text, trackers_of-append_trackers, priorities_text-IsPlain,
  append_trackers-IsPlain,
}

-- The values that the fields' types have, and trackers that the text can keep.
pub record StoredTorrentFits {w : WxText} (t : StoredTorrent w) : Type 0 where
  pub qindex : IsInt t.qindex
  pub connect_boost : IsUint8 t.connect_boost
  pub storagemode : IsInt t.storagemode
  pub torrent_state : IsInt t.torrent_state
  pub torrent_ratio : IsInt t.torrent_ratio
  pub torrent_upload_limit : IsInt t.torrent_upload_limit
  pub torrent_download_limit : IsInt t.torrent_download_limit
  pub torrent_max_uploads : IsInt t.torrent_max_uploads
  pub torrent_max_connections : IsInt t.torrent_max_connections
  pub selected_file_size : t.selected_file_size < 2 ^ 64
  pub total_file_size : t.total_file_size < 2 ^ 64
  pub files_priority : All (λ (p : ℕ). p < 256) t.files_priority
  pub trackers_url : All IsKept t.trackers_url

abbrev trackers_key : String
trackers_key = "/Torrent/trackers"

module _ (w : WxText) (f : FileConfig) where
  -- The trackers that a `Load` finds: those saved, or where none were, those that `m_cfg` had.
  unfoldable pub found_trackers : Reader → List StoredTracker → List StoredTracker
  found_trackers old [] = trackers_of w (read_text old trackers_key [])
  found_trackers old (t ∷ ts) = t ∷ ts

  -- What a `Load` makes of the fields that it does not give back as they were. The totals are those
  -- of the text, if the progress has no comma in it.
  unfoldable pub restored_torrent : Totals w → Reader → StoredTorrent w → StoredTorrent w
  restored_torrent unset old t = record t {
    downloadpath = w.with_sep (f.expand t.downloadpath);
    magneturi = f.expand t.magneturi;
    torrent_max_uploads = two_uploads t.torrent_max_uploads;
    files_priority = map valid_priority t.files_priority;
    trackers_url = found_trackers old t.trackers_url;
    torrent_stats = stats_of w unset (f.expand (stats_text w t.torrent_stats));
  }

  -- The entries before the trackers do not name these.
  swap_wrote :
      (es tail : List Entry) (old : Option Chars) (k : String)
      → stored trackers_key es ≡ none
      → ((str_eq trackers_key k ≡ false) → stored k tail ≡ none)
      → wrote (seen f (stored k tail)) (wrote (seen f (stored k es)) old)
        ≡ wrote (seen f (stored k es)) (wrote (seen f (stored k tail)) old)
  swap_wrote es tail old k apart only = elim (Bool-cases (str_eq trackers_key k)) [
    | inl e ↦
        let here : stored k es ≡ none =
          ap (λ (j : String). stored j es) (sym ((eq_iff trackers_key k).0 e)) ∙ apart in
        rw here refl
    | inr e ↦ rw (only e) refl
  ]

  stored-tracker_entries :
      (ts : List StoredTracker) (k : String)
      → str_eq trackers_key k ≡ false
      → stored k (tracker_entries w ts) ≡ none
  unfolding tracker_entries
  stored-tracker_entries [] k e = refl
  stored-tracker_entries (t ∷ ts) k e = rw e refl

  module _ (text : IsText w) (file : IsFileConfig f) where
    -- The file as it is before the other entries are written, with the trackers.
    abbrev with_trackers : List StoredTracker → Reader → Reader
    with_trackers ts old k = wrote (seen f (stored k (tracker_entries w ts))) (old k)

    saved-Written :
        (t : StoredTorrent w) (cfg : f.Cfg)
        → Written w f
            (with_trackers t.trackers_url (f.entry cfg))
            (torrent_entries w f (raise_uploads w t))
            (f.entry (f.reopen (save_torrent w f t cfg).1))
    unfolding save_torrent raise_uploads torrent_entries
    saved-Written t cfg =
        let es = torrent_entries w f (raise_uploads w t) in
        record {
          text = text;
          file = file;
          wrote_lem = λ k.
              file.entry-reopen _ k
              ∙ entry-write_all f file (write_all f cfg es) (tracker_entries w t.trackers_url) k
              ∙ ap (wrote (seen f (stored k (tracker_entries w t.trackers_url))))
                  (entry-write_all f file cfg es k)
              ∙ swap_wrote es (tracker_entries w t.trackers_url) (f.entry cfg k) k refl
                  (stored-tracker_entries t.trackers_url k);
        }

    -- Both halves are 0 only for 0.
    size_halves :
        (n : ℕ)
        → n < 2 ^ 64
        → (if eqb_ℤ (w.high n) (pos 0) && eqb_ℤ (pos (w.low n)) (pos 0)
            then 0
            else w.join (w.high n) (pos (w.low n)))
          ≡ n
    size_halves n fits =
        elim (Bool-cases (eqb_ℤ (w.high n) (pos 0) && eqb_ℤ (pos (w.low n)) (pos 0))) [
          | inl e ↦
              let zeros : w.join (w.high n) (pos (w.low n)) ≡ w.join (pos 0) (pos 0) =
                ground (arith, e) in
              rw e (sym text.join_zero ∙ sym zeros ∙ text.join_parts n fits)
          | inr e ↦ rw e (text.join_parts n fits)
        ]

    low_FitsLong : (n : ℕ) → n < 2 ^ 64 → FitsLong (pos (w.low n))
    low_FitsLong n fits = let low = text.low_fits n fits in (omega (arith, low), omega (arith, low))

    size_field :
        {old : Reader} {es : List Entry} {read : Reader} (h : Written w f old es read) (n : ℕ)
        (hi lo : String)
        → n < 2 ^ 64
        → stored hi es ≡ some (w.print (w.high n))
        → stored lo es ≡ some (w.print (pos (w.low n)))
        → read_size w f read hi lo ≡ n
    unfolding read_size
    size_field h n hi lo fits p q =
        rw
          (
            long_field h hi (pos 0) (w.high n) (IsInt-FitsLong _ (text.high_fits n fits)) p,
            long_field h lo (pos 0) (pos (w.low n)) (low_FitsLong n fits) q,
          )
          (size_halves n fits)

    trackers_field :
        (old : Reader) (ts : List StoredTracker)
        → All IsKept ts
        → trackers_of w (read_text (with_trackers ts old) trackers_key []) ≡ found_trackers old ts
    unfolding found_trackers tracker_entries read_text
    trackers_field old [] h = refl
    trackers_field old (t ∷ ts) h =
        ap (trackers_of w) (file.expand_plain _ (append_trackers-IsPlain w text (t ∷ ts) h))
        ∙ trackers_of-append_trackers w text t ts h

    -- Where each number of a torrent's settings fits its type and no tracker's URL holds a bar, a
    -- semicolon, a dollar sign or a backslash, `TorrentConfig::Load` of the file that `Save`
    -- leaves gives each field as it was, but for the path (with its environment variables
    -- expanded and a separator at the end), the magnet URI (expanded), the uploads (at least 2),
    -- the priorities above 7 (which become 4), the trackers where there are none (then those of
    -- the entry that was there), and the totals (as their text is read).
    pub load_torrent-save_torrent :
        (main : Settings w) (unset : Totals w) (t : StoredTorrent w) (cfg : f.Cfg)
        → StoredTorrentFits t
        → load_torrent w f main unset (f.entry (f.reopen (save_torrent w f t cfg).1))
          ≡ restored_torrent unset (f.entry cfg) t
    unfolding load_torrent restored_torrent torrent_entries raise_uploads
    load_torrent-save_torrent main unset t cfg fits =
        let h = saved-Written t cfg in
        λ i. record {
          qindex = int_field h "/Torrent/qindex" (negsuc 0) t.qindex fits.qindex refl i;
          downloadpath = w.with_sep (
              text_field h "/Torrent/downloadpath" (f.expand main.general.downloadpath)
                t.downloadpath refl i);
          magneturi = text_field h "/Torrent/magneturi" [] t.magneturi refl i;
          connect_boost =
              uint8_field h "/Torrent/connect_boost" (pos 255) t.connect_boost fits.connect_boost
                refl i;
          sequential_download =
              bool_field h "/Torrent/sequential_download" false t.sequential_download refl i;
          enable_video_preview =
              bool_field h "/Torrent/enable_video_preview" true t.enable_video_preview refl i;
          storagemode =
              long_field h "/Torrent/storagemode" main.transfer.storagemode t.storagemode
                (IsInt-FitsLong _ fits.storagemode) refl i;
          torrent_state =
              int_field h "/Torrent/state" main.defaults.default_state t.torrent_state
                fits.torrent_state refl i;
          torrent_ratio =
              int_field h "/Torrent/ratio" main.defaults.default_ratio t.torrent_ratio
                fits.torrent_ratio refl i;
          torrent_upload_limit =
              int_field h "/Torrent/upload_limit" main.defaults.default_upload_limit
                t.torrent_upload_limit fits.torrent_upload_limit refl i;
          torrent_download_limit =
              int_field h "/Torrent/download_limit" main.defaults.default_download_limit
                t.torrent_download_limit fits.torrent_download_limit refl i;
          torrent_max_uploads =
              uploads_field h "/Torrent/max_uploads" main.defaults.default_max_uploads
                t.torrent_max_uploads fits.torrent_max_uploads refl i;
          torrent_max_connections =
              int_field h "/Torrent/max_connections" main.defaults.default_max_connections
                t.torrent_max_connections fits.torrent_max_connections refl i;
          selected_file_size =
              size_field h t.selected_file_size "/Torrent/selected_size_h"
                "/Torrent/selected_size_l" fits.selected_file_size refl refl i;
          total_file_size =
              size_field h t.total_file_size "/Torrent/total_size_h" "/Torrent/total_size_l"
                fits.total_file_size refl refl i;
          files_priority =
              (ap (priorities_of w) (
                    text_field h "/Torrent/files_priority" [] (priorities_text w t.files_priority)
                      refl)
                  ∙ ap (priorities_of w)
                      (file.expand_plain _ (priorities_text-IsPlain w text t.files_priority))
                  ∙ priorities_of-priorities_text w text t.files_priority fits.files_priority)
                i;
          trackers_url =
              (ap (trackers_of w) (old_text h trackers_key [] refl)
                  ∙ trackers_field (f.entry cfg) t.trackers_url fits.trackers_url)
                i;
          torrent_stats =
              stats_of w unset (
                text_field h "/Torrent/stats" (codes "0,0,0") (stats_text w t.torrent_stats) refl
                  i);
        }
