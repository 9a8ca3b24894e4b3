-- ===== src/TorrentFile/Lost.antt =====
-- What a torrent's file loses: trackers that were taken away come back, and a decimal comma in the
-- progress shifts the totals (src/torrentconfig.cpp).
use bitswash.Prelude.{
  ℕ, ◌<◌, ◌^◌, pos, ◌++◌, List, [], ◌∷◌, Option, none, some, ◌≡◌, ◌≢◌, refl, ap, ◌∙◌, sym, arith,
  inl, append_assoc,
}
use bitswash.Wx.{Chars, Lacks, comma, IsDigits-Lacks, WxText, IsText, FileConfig, IsFileConfig}
use bitswash.Settings.Reading.{Reader, read_text}
use bitswash.Settings.File.{Settings}
use bitswash.TorrentFile.{Totals, StoredTorrent, stats_text, stats_of, save_torrent, load_torrent}
use bitswash.TorrentFile.Codec.{StoredTracker, trackers_of}
use bitswash.TorrentFile.RoundTrip.{
  StoredTorrentFits, found_trackers, restored_torrent, load_torrent-save_torrent,
}

module _ (w : WxText) (text : IsText w) where
  print-Lacks : (n : ℕ) → Lacks comma (w.print (pos n))
  print-Lacks n =
      IsDigits-Lacks comma _ (omega arith) (inl (omega arith)) (text.print-IsDigits (pos n))

  number :
      (old n : ℕ) {t : Chars}
      → n < 2 ^ 64
      → t ≡ w.print (pos n)
      → elim (w.to_ulonglong t) [ none ↦ old | some m ↦ m ] ≡ n
  number old n fits e = ground (arith, ap w.to_ulonglong e ∙ text.to_ulonglong-print n fits)

  -- Where both totals are below 2^64 and the progress is written without a comma, the text that
  -- `Save` writes for the totals gives back, read as `Load` reads it, both totals as they were,
  -- and the progress as its own text is read, or as it was before the reading where that is no
  -- number.
  pub stats_of-stats_text :
      (unset s : Totals w)
      → s.total_download < 2 ^ 64
      → s.total_upload < 2 ^ 64
      → Lacks comma (w.format_real s.progress)
      → (stats_of w unset (stats_text w s) ≡ record s {
        progress = elim (w.to_double (w.format_real s.progress)) [
          | none ↦ unset.progress
          | some x ↦ x
        ];
      })
  unfolding stats_of stats_text
  stats_of-stats_text unset s fits fits' h =
      let down = w.print (pos s.total_download) in
      let up = w.print (pos s.total_upload) in
      let rest = down ++ comma ∷ up in
      let tail : w.after_first comma (w.format_real s.progress ++ comma ∷ rest) ≡ rest =
        text.after_first_sep comma (w.format_real s.progress) rest h in
      λ i. record {
        progress =
            elim (w.to_double (text.before_first_sep comma (w.format_real s.progress) rest h i)) [
              | none ↦ unset.progress
              | some x ↦ x
            ];
        total_download =
            number unset.total_download s.total_download fits
              (ap (w.before_first comma) tail
                ∙ text.before_first_sep comma down up (print-Lacks s.total_download))
              i;
        total_upload =
            number unset.total_upload s.total_upload fits'
              (ap (λ (c : Chars). w.before_first comma (w.after_first comma c)) tail
                ∙ ap (w.before_first comma)
                    (text.after_first_sep comma down up (print-Lacks s.total_download))
                ∙ text.before_first_none comma up (print-Lacks s.total_upload))
              i;
      }

  -- Where the downloaded total is below 2^64 and the progress is written with one comma in it,
  -- `Load` reads as the uploaded total what `Save` wrote as the downloaded one.
  pub stats_of-decimal_comma :
      (unset s : Totals w) (whole decimals : Chars)
      → s.total_download < 2 ^ 64
      → w.format_real s.progress ≡ whole ++ comma ∷ decimals
      → Lacks comma whole
      → Lacks comma decimals
      → (stats_of w unset (stats_text w s)).total_upload ≡ s.total_download
  unfolding stats_of stats_text
  stats_of-decimal_comma unset s whole decimals fits e hw hd =
      let down = w.print (pos s.total_download) in
      let up = w.print (pos s.total_upload) in
      let rest = down ++ comma ∷ up in
      let split : w.format_real s.progress ++ comma ∷ rest
          ≡ whole ++ comma ∷ (decimals ++ comma ∷ rest) =
        ap (λ (c : Chars). c ++ comma ∷ rest) e
        ∙ append_assoc whole (comma ∷ decimals) (comma ∷ rest) in
      number unset.total_upload s.total_download fits (
        ap (λ (c : Chars). w.before_first comma (w.after_first comma (w.after_first comma c))) split
        ∙ ap (λ (c : Chars). w.before_first comma (w.after_first comma c))
            (text.after_first_sep comma whole (decimals ++ comma ∷ rest) hw)
        ∙ ap (w.before_first comma) (text.after_first_sep comma decimals rest hd)
        ∙ text.before_first_sep comma down up (print-Lacks s.total_download))

  module _ (f : FileConfig) (file : IsFileConfig f) where
    saved_trackers :
        (t : StoredTorrent w) (cfg : f.Cfg) (main : Settings w) (unset : Totals w)
        → StoredTorrentFits t
        → trackers_of w (read_text (f.entry (save_torrent w f t cfg).1) "/Torrent/trackers" [])
          ≡ found_trackers w f (f.entry cfg) t.trackers_url
    unfolding load_torrent restored_torrent read_text
    saved_trackers t cfg main unset fits =
        same_text (sym (file.entry-reopen (save_torrent w f t cfg).1 "/Torrent/trackers"))
        ∙ ap (λ (u : StoredTorrent w). u.trackers_url)
            (load_torrent-save_torrent w f text file main unset t cfg fits)
      where
        same_text :
            {o o' : Option Chars}
            → o ≡ o'
            → trackers_of w (elim o [ none ↦ [] | some c ↦ c ])
              ≡ trackers_of w (elim o' [ none ↦ [] | some c ↦ c ])
        same_text e = λ i. trackers_of w (elim (e i) [ none ↦ [] | some c ↦ c ])

    found_own : (old : Reader) (ts : List StoredTracker) → ts ≢ [] → found_trackers w f old ts ≡ ts
    unfolding found_trackers
    found_own old [] h = absurd (h refl)
    found_own old (t ∷ ts) h = refl

    -- Where the numbers fit and the URLs hold no separator, dollar sign or backslash, saving
    -- settings with trackers and then settings without any leaves a file from which `Load` reads
    -- the trackers of the first.
    pub load_torrent-taken_away :
        (main : Settings w) (unset : Totals w) (t u : StoredTorrent w) (cfg : f.Cfg)
        → StoredTorrentFits t
        → StoredTorrentFits u
        → t.trackers_url ≢ []
        → u.trackers_url ≡ []
        → (load_torrent w f main unset
            (f.entry (f.reopen (save_torrent w f u (save_torrent w f t cfg).1).1))).trackers_url
          ≡ t.trackers_url
    unfolding restored_torrent found_trackers
    load_torrent-taken_away main unset t u cfg fits fits' h none_left =
        ap (λ (v : StoredTorrent w). v.trackers_url)
          (load_torrent-save_torrent w f text file main unset u (save_torrent w f t cfg).1 fits')
        ∙ ap (found_trackers w f (f.entry (save_torrent w f t cfg).1)) none_left
        ∙ saved_trackers t cfg main unset fits
        ∙ found_own (f.entry cfg) t.trackers_url h
