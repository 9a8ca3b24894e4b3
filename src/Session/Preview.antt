-- ===== src/Session/Preview.antt =====
-- `ConfigureTorrentFilesPriority` (src/bittorrentsession.cpp): file priorities, and the pieces at
-- both ends of a film, which a preview needs first. `fileSize * 0.01 / piece_len`, rounded up, is
-- exact here; the source computes it in `double`. Out of range, where the source's writes are
-- undefined, nothing is written.
pub mod Bounds
use bitswash.Prelude.{
  ℕ, zero, suc, ◌+◌, ◌-◌, ◌*◌, ◌/◌, String, List, [], ◌∷◌, Bool, true, false, not, ◌&&◌, ◌||◌, ◌==◌,
  if◌then◌else◌, str_eq, length, set, replicate, ◌|>◌,
}
use bitswash.Torrent.{FileEntry, TorrentInfo, file_none, file_normal, file_highest}
use bitswash.LibTorrent.{World, prioritize_files, prioritize_pieces}
use bitswash.Session.{Session, emit, modify_config, save}

-- The extensions that the constructor puts into `m_preview_ext_set`.
abbrev pub preview_ext_set : List String
preview_ext_set =
    "3GP" ∷ "AAC" ∷ "AC3" ∷ "AIF" ∷ "AIFC" ∷ "AIFF" ∷ "ASF" ∷ "AU" ∷ "AVI" ∷ "FLAC" ∷ "FLV" ∷ "M3U"
    ∷ "M4A" ∷ "M4P" ∷ "M4V" ∷ "MID" ∷ "MKV" ∷ "MOV" ∷ "MP2" ∷ "MP3" ∷ "MP4" ∷ "MPC" ∷ "MPE" ∷ "MPEG"
    ∷ "MPG" ∷ "MPP" ∷ "OGG" ∷ "OGM" ∷ "OGV" ∷ "QT" ∷ "RA" ∷ "RAM" ∷ "RM" ∷ "RMV" ∷ "RMVB" ∷ "SWA"
    ∷ "SWF" ∷ "VOB" ∷ "WAV" ∷ "WMA" ∷ "WMV" ∷ []

unfoldable pub has_extension : String → List String → Bool
has_extension e [] = false
has_extension e (x ∷ xs) = str_eq e x || has_extension e xs

-- The first and the last piece of a file, and how many pieces to raise at each end.
abbrev pub first_piece : ℕ → FileEntry → ℕ
first_piece len f = f.file_offset / len

abbrev pub last_piece : ℕ → FileEntry → ℕ
last_piece len f = (f.file_offset + f.file_size - 1) / len

abbrev pub preview_pieces : ℕ → FileEntry → ℕ
preview_pieces len f = (f.file_size + (100 * len - 1)) / (100 * len)

-- `for (j = 0; j < n; ++j) { pp[first + j] = prio; pp[last - j] = prio; }`
unfoldable pub raise_ends : ℕ → ℕ → ℕ → List ℕ → List ℕ
raise_ends zero first last pp = pp
raise_ends (suc j) first last pp =
    let pp' = raise_ends j first last pp in
    set (set pp' (first + j) file_highest) (last - j) file_highest

-- One round of the loop over the files, with `ppchanged`.
unfoldable pub raise_file : ℕ → FileEntry → ℕ → List ℕ × Bool → List ℕ × Bool
raise_file len f priority (pp, changed) =
    if not (priority == file_none) && has_extension f.extension preview_ext_set
    then (raise_ends (preview_pieces len f) (first_piece len f) (last_piece len f) pp, true)
    else (pp, changed)

unfoldable pub raise_files : ℕ → List FileEntry → List ℕ → List ℕ × Bool → List ℕ × Bool
raise_files len [] ps acc = acc
raise_files len (f ∷ fs) [] acc = acc
raise_files len (f ∷ fs) (p ∷ ps) acc = raise_files len fs ps (raise_file len f p acc)

-- The file priorities in use: all normal, if their number is not that of the files.
unfoldable pub effective_priorities : TorrentInfo → List ℕ → List ℕ
effective_priorities i ps =
    if length ps == length i.files then ps else replicate (length i.files) file_normal

unfoldable pub prioritize_preview : World → ℕ → TorrentInfo → List ℕ → Session → Session
prioritize_preview w n i ps s =
    let (pp, changed) =
      raise_files i.piece_length i.files ps (w.piece_priorities s.history n, false) in
    if changed then emit (prioritize_pieces n pp) s else s

-- The body under `handle.is_valid()`, for the torrent at `r` with the handle `n`.
unfoldable pub prioritize : World → ℕ → TorrentInfo → ℕ → Session → Session
prioritize w n i r s =
    let ps = effective_priorities i (s.store r).config.files_priority in
    let s1 =
      s
      |> modify_config r (λ c. record c { files_priority = ps })
      |> emit (prioritize_files n ps) in
    let s2 =
      if (s1.store r).config.enable_video_preview then prioritize_preview w n i ps s1 else s1 in
    save r s2
