-- ===== src/TorrentFile.antt =====
-- `TorrentConfig` (src/torrentconfig.h, src/torrentconfig.cpp): the settings of one torrent and the
-- file that keeps them. The record has the class's fields with the numbers and texts that the file
-- has; `Torrent.TorrentConfig` is the session's view of it. URLs are valid UTF-8, so that their
-- conversions are left out.
pub mod Codec
pub mod Recovered
pub mod RoundTrip
pub mod Lost
pub mod Tests
use bitswash.Prelude.{
  ℕ, ℤ, pos, negsuc, ◌%◌, ◌++◌, List, [], ◌∷◌, Option, none, some, Bool, true, false, eqb_ℤ, ◌&&◌,
  if◌then◌else◌, String,
}
use bitswash.Wx.{Chars, Entry, codes, write_all, comma, WxText, FileConfig}
use bitswash.Settings.Reading.{
  Reader, read_text, read_long, read_int, read_uint8, read_bool, two_uploads,
}
use bitswash.Settings.File.{Settings}
use Codec.{StoredTracker, priorities_text, priorities_of, tracker_entries, trackers_of}

-- `stats_t`
module _ (w : WxText) where
  pub record Totals : Type 0 where
    pub progress : w.Real
    pub total_download : ℕ
    pub total_upload : ℕ

  pub record StoredTorrent : Type 0 where
    pub qindex : ℤ
    pub downloadpath : Chars
    pub magneturi : Chars
    pub connect_boost : ℕ
    pub sequential_download : Bool
    pub enable_video_preview : Bool
    pub storagemode : ℤ
    pub torrent_state : ℤ
    pub torrent_ratio : ℤ
    pub torrent_upload_limit : ℤ
    pub torrent_download_limit : ℤ
    pub torrent_max_uploads : ℤ
    pub torrent_max_connections : ℤ
    pub selected_file_size : ℕ
    pub total_file_size : ℕ
    pub files_priority : List ℕ
    pub trackers_url : List StoredTracker
    pub torrent_stats : Totals

  -- `"%.02f,%s,%s"`
  unfoldable pub stats_text : Totals → Chars
  stats_text s =
      w.format_real s.progress
      ++ comma ∷ (w.print (pos s.total_download) ++ comma ∷ w.print (pos s.total_upload))

  -- What stands in a field stays there where the text is no number.
  unfoldable pub stats_of : Totals → Chars → Totals
  stats_of unset text =
      let rest = w.after_first comma text in
      record {
        progress = elim (w.to_double (w.before_first comma text)) [
          | none ↦ unset.progress
          | some x ↦ x
        ];
        total_download = elim (w.to_ulonglong (w.before_first comma rest)) [
          | none ↦ unset.total_download
          | some n ↦ n
        ];
        total_upload = elim (w.to_ulonglong (w.before_first comma (w.after_first comma rest))) [
          | none ↦ unset.total_upload
          | some n ↦ n
        ];
      }

  unfoldable pub raise_uploads : StoredTorrent → StoredTorrent
  raise_uploads t = record t { torrent_max_uploads = two_uploads t.torrent_max_uploads }

  -- `SetFilesPriority` and `SetTrackersURL` swap the argument with an emptied vector.
  unfoldable pub set_files_priority : List ℕ → StoredTorrent → StoredTorrent × List ℕ
  set_files_priority files t = (record t { files_priority = files }, [])

  unfoldable pub set_trackers_url :
      List StoredTracker → StoredTorrent → StoredTorrent × List StoredTracker
  set_trackers_url trackers t = (record t { trackers_url = trackers }, [])

module _ (w : WxText) (f : FileConfig) where
  -- What `Save` writes before the trackers, in this order.
  unfoldable pub torrent_entries : StoredTorrent w → List Entry
  torrent_entries t =
      ("/Torrent/qindex", w.print t.qindex)
      ∷ ("/Torrent/downloadpath", t.downloadpath)
      ∷ ("/Torrent/connect_boost", w.print (pos t.connect_boost))
      ∷ ("/Torrent/storagemode", w.print t.storagemode)
      ∷ ("/Torrent/state", w.print t.torrent_state)
      ∷ ("/Torrent/ratio", w.print t.torrent_ratio)
      ∷ ("/Torrent/upload_limit", w.print t.torrent_upload_limit)
      ∷ ("/Torrent/download_limit", w.print t.torrent_download_limit)
      ∷ ("/Torrent/max_connections", w.print t.torrent_max_connections)
      ∷ ("/Torrent/enable_video_preview", f.print_bool t.enable_video_preview)
      ∷ ("/Torrent/sequential_download", f.print_bool t.sequential_download)
      ∷ ("/Torrent/total_size_h", w.print (w.high t.total_file_size))
      ∷ ("/Torrent/total_size_l", w.print (pos (w.low t.total_file_size)))
      ∷ ("/Torrent/selected_size_h", w.print (w.high t.selected_file_size))
      ∷ ("/Torrent/selected_size_l", w.print (pos (w.low t.selected_file_size)))
      ∷ ("/Torrent/max_uploads", w.print t.torrent_max_uploads)
      ∷ ("/Torrent/stats", stats_text w t.torrent_stats)
      ∷ ("/Torrent/magneturi", t.magneturi)
      ∷ ("/Torrent/files_priority", priorities_text w t.files_priority)
      ∷ []

  -- `Save`: the object and `m_cfg` after it, which then goes to the file.
  unfoldable pub save_torrent : StoredTorrent w → f.Cfg → StoredTorrent w × f.Cfg
  unfolding raise_uploads
  save_torrent t0 cfg =
      let t = raise_uploads w t0 in
      (t, write_all f (write_all f cfg (torrent_entries t)) (tracker_entries w t.trackers_url))

  -- A size in two halves; 0, as the constructor sets it, where both are 0.
  unfoldable pub read_size : Reader → String → String → ℕ
  read_size read hi lo =
      let s_hi = read_long w read hi (pos 0) in
      let s_lo = read_long w read lo (pos 0) in
      if eqb_ℤ s_hi (pos 0) && eqb_ℤ s_lo (pos 0) then 0 else w.join s_hi s_lo

  -- `Load`, with the settings that give the defaults, and what the totals hold before.
  unfoldable pub load_torrent : Settings w → Totals w → Reader → StoredTorrent w
  load_torrent main unset read = record {
    qindex = read_int w read "/Torrent/qindex" (negsuc 0);
    downloadpath =
        w.with_sep (read_text read "/Torrent/downloadpath" (f.expand main.general.downloadpath));
    magneturi = read_text read "/Torrent/magneturi" [];
    connect_boost = read_uint8 w read "/Torrent/connect_boost" (pos 255);
    sequential_download = read_bool f read "/Torrent/sequential_download" false;
    enable_video_preview = read_bool f read "/Torrent/enable_video_preview" true;
    storagemode = read_long w read "/Torrent/storagemode" main.transfer.storagemode;
    torrent_state = read_int w read "/Torrent/state" main.defaults.default_state;
    torrent_ratio = read_int w read "/Torrent/ratio" main.defaults.default_ratio;
    torrent_upload_limit =
        read_int w read "/Torrent/upload_limit" main.defaults.default_upload_limit;
    torrent_download_limit =
        read_int w read "/Torrent/download_limit" main.defaults.default_download_limit;
    torrent_max_uploads =
        two_uploads (read_int w read "/Torrent/max_uploads" main.defaults.default_max_uploads);
    torrent_max_connections =
        read_int w read "/Torrent/max_connections" main.defaults.default_max_connections;
    selected_file_size = read_size read "/Torrent/selected_size_h" "/Torrent/selected_size_l";
    total_file_size = read_size read "/Torrent/total_size_h" "/Torrent/total_size_l";
    files_priority = priorities_of w (read_text read "/Torrent/files_priority" []);
    trackers_url = trackers_of w (read_text read "/Torrent/trackers" []);
    torrent_stats = stats_of w unset (read_text read "/Torrent/stats" (codes "0,0,0"));
  }
