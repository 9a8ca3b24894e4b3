-- ===== src/TorrentFile/Tests.antt =====
-- Instances of the theorems on a torrent's file.
use bitswash.Prelude.{pos, negsuc, [], ◌∷◌, none, some, true, false, ◌≡◌, refl, arith}
use mathlib.Core.List.{cons-ne-nil}
use bitswash.Wx.{codes}
use bitswash.Sample.{
  sample, format_real_comma, format_real-Lacks, sample-IsText, sample_file,
  sample_file-IsFileConfig,
}
use bitswash.Settings.Tests.{some_settings}
use bitswash.TorrentFile.{Totals, StoredTorrent, stats_text, stats_of, save_torrent, load_torrent}
use bitswash.TorrentFile.Codec.{StoredTracker}
use bitswash.TorrentFile.RoundTrip.{StoredTorrentFits, restored_torrent, load_torrent-save_torrent}
use bitswash.TorrentFile.Lost.{stats_of-stats_text, stats_of-decimal_comma, load_torrent-taken_away}

abbrev tracker : StoredTracker
tracker = record { url = codes "http://t"; tier = 2 }

abbrev totals : Totals (sample b'.')
totals = record { progress = 5_025; total_download = 7_000_000_000; total_upload = 12 }

abbrev no_totals : Totals (sample b'.')
no_totals = record { progress = 0; total_download = 0; total_upload = 0 }

abbrev kept : StoredTorrent (sample b'.')
kept = record {
  qindex = pos 3;
  downloadpath = codes "$/films";
  magneturi = [];
  connect_boost = 255;
  sequential_download = false;
  enable_video_preview = true;
  storagemode = pos 1;
  torrent_state = pos 2;
  torrent_ratio = pos 150;
  torrent_upload_limit = negsuc 0;
  torrent_download_limit = negsuc 0;
  torrent_max_uploads = pos 1;
  torrent_max_connections = pos 50;
  selected_file_size = 5_000_000_000;
  total_file_size = 6_000_000_000;
  files_priority = 4 ∷ 9 ∷ 0 ∷ [];
  trackers_url = tracker ∷ [];
  torrent_stats = totals;
}

kept-Fits : StoredTorrentFits kept
kept-Fits = omega arith

load_torrent-save_torrent_example :
    load_torrent (sample b'.') sample_file some_settings no_totals (
      sample_file.entry
        (sample_file.reopen (save_torrent (sample b'.') sample_file kept (λ k. none)).1))
    ≡ restored_torrent (sample b'.') sample_file no_totals (λ k. none) kept
load_torrent-save_torrent_example =
    load_torrent-save_torrent (sample b'.') sample_file (sample-IsText b'.')
      sample_file-IsFileConfig some_settings no_totals kept (λ k. none) kept-Fits

abbrev bare : StoredTorrent (sample b'.')
bare = record kept { trackers_url = [] }

bare-Fits : StoredTorrentFits bare
bare-Fits = omega arith

load_torrent-taken_away_example :
    (load_torrent (sample b'.') sample_file some_settings no_totals (
      sample_file.entry (
        sample_file.reopen
          (save_torrent
            (sample b'.')
            sample_file
            bare
            (save_torrent (sample b'.') sample_file kept (λ k. none)).1).1))).trackers_url
    ≡ tracker ∷ []
load_torrent-taken_away_example =
    load_torrent-taken_away (sample b'.') (sample-IsText b'.') sample_file sample_file-IsFileConfig
      some_settings no_totals kept bare (λ k. none) kept-Fits bare-Fits (cons-ne-nil tracker [])
      refl

stats_of-stats_text_example :
    stats_of (sample b'.') no_totals (stats_text (sample b'.') totals) ≡ record totals {
      progress = elim ((sample b'.').to_double ((sample b'.').format_real 5_025)) [
        | none ↦ 0
        | some x ↦ x
      ];
    }
stats_of-stats_text_example =
    stats_of-stats_text (sample b'.') (sample-IsText b'.') no_totals totals (omega arith)
      (omega arith) (format_real-Lacks 5_025)

abbrev comma_totals : Totals (sample b',')
comma_totals = record { progress = 5_025; total_download = 7_000_000_000; total_upload = 12 }

stats_of-decimal_comma_example :
    (stats_of (sample b',') comma_totals (stats_text (sample b',') comma_totals)).total_upload
    ≡ 7_000_000_000
stats_of-decimal_comma_example =
    let split = format_real_comma 5_025 in
    stats_of-decimal_comma (sample b',') (sample-IsText b',') comma_totals comma_totals split.0
      split.1 (omega arith) split.2 split.3 split.4
