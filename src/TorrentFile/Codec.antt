-- ===== src/TorrentFile/Codec.antt =====
-- `WriteFilesPriority`, `ReadFilesPriority`, `WriteTrackersUrl` and `ReadTrackersUrl`
-- (src/torrentconfig.cpp): the texts that keep the priorities of files and the trackers.
use bitswash.Prelude.{
  ℕ, ℤ, pos, ◌%◌, ◌++◌, List, [], ◌∷◌, map, ltb, if◌then◌else◌, ◌≡◌, ◌∙◌, sym, append_assoc,
  append-nil,
}
use bitswash.Wx.{Chars, Entry, comma, bar, semicolon, WxText, terminated}
use bitswash.Settings.Reading.{uint32}

-- `lt::announce_entry`, as far as it is kept; `tier` is a byte.
pub record StoredTracker : Type 0 where
  pub url : Chars
  pub tier : ℕ

-- `std::uint8_t` of an `int`, and the priority that stands for one out of range.
unfoldable pub byte_of : ℤ → ℕ
byte_of z = uint32 z % 256

unfoldable pub valid_priority : ℕ → ℕ
valid_priority p = if ltb 7 p then 4 else p

module _ (w : WxText) where
  -- The loop of `WriteFilesPriority`.
  unfoldable pub append_priorities : Chars → List ℕ → Chars
  append_priorities out [] = out
  append_priorities out (p ∷ ps) = append_priorities (out ++ (w.print (pos p) ++ comma ∷ [])) ps

  unfoldable pub priorities_text : List ℕ → Chars
  priorities_text ps = w.before_last comma (append_priorities [] ps)

  unfoldable pub priority_of : Chars → ℕ
  priority_of token = valid_priority (byte_of (w.atoi token))

  unfoldable pub priorities_of : Chars → List ℕ
  priorities_of text = map priority_of (w.tokens comma text)

  -- The loop of `WriteTrackersUrl`.
  unfoldable pub append_trackers : Chars → List StoredTracker → Chars
  append_trackers out [] = out
  append_trackers out (t ∷ ts) =
      append_trackers (out ++ (t.url ++ bar ∷ (w.print (pos t.tier) ++ semicolon ∷ []))) ts

  -- Nothing is written where there is no tracker.
  unfoldable pub tracker_entries : List StoredTracker → List Entry
  tracker_entries [] = []
  tracker_entries (t ∷ ts) =
      ("/Torrent/trackers", w.before_last semicolon (append_trackers [] (t ∷ ts))) ∷ []

  unfoldable pub tracker_of : Chars → StoredTracker
  tracker_of token = record {
    url = w.before_first bar token;
    tier = byte_of (w.atoi (w.after_first bar token));
  }

  unfoldable pub trackers_of : Chars → List StoredTracker
  trackers_of [] = []
  trackers_of (c ∷ cs) = map tracker_of (w.tokens semicolon (c ∷ cs))

  unfoldable pub priority_texts : List ℕ → List Chars
  priority_texts = map (λ (p : ℕ). w.print (pos p))

  unfoldable pub tracker_text : StoredTracker → Chars
  tracker_text t = t.url ++ bar ∷ w.print (pos t.tier)

  pub append_priorities-terminated :
      (out : Chars) (ps : List ℕ)
      → append_priorities out ps ≡ out ++ terminated comma (priority_texts ps)
  unfolding append_priorities terminated priority_texts
  append_priorities-terminated out [] = sym (append-nil out)
  append_priorities-terminated out (p ∷ ps) =
      append_priorities-terminated (out ++ (w.print (pos p) ++ comma ∷ [])) ps ∙ simp append_assoc

  pub append_trackers-terminated :
      (out : Chars) (ts : List StoredTracker)
      → append_trackers out ts ≡ out ++ terminated semicolon (map tracker_text ts)
  unfolding append_trackers terminated tracker_text
  append_trackers-terminated out [] = sym (append-nil out)
  append_trackers-terminated out (t ∷ ts) =
      append_trackers-terminated (out ++ (t.url ++ bar ∷ (w.print (pos t.tier) ++ semicolon ∷ [])))
        ts
      ∙ simp append_assoc
