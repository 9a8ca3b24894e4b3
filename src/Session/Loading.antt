-- ===== src/Session/Loading.antt =====
-- Torrents at start and exit: `UpdateTorrentFileSize`, `LoadMagnetUri`, the numbering at the end of
-- `ScanTorrentsDirectory`, and `SaveAllTorrent` up to its wait for libtorrent
-- (src/bittorrentsession.cpp).
use bitswash.Prelude.{
  ℕ, pos, ◌+◌, ◌-◌, String, List, [], ◌∷◌, Option, none, some, Bool, false, not, ◌&&◌, ◌||◌, ◌==◌,
  ltb, if◌then◌else◌, length, ◌|>◌,
}
use mathlib.Core.List.{reverse}
use bitswash.Torrent.{
  Torrent, TorrentConfig, TorrentState, FileEntry, file_none, is_stop, is_active, has_info,
}
use bitswash.LibTorrent.{World, save_resume_data, keep_magnet_uri, remove_torrent as remove_handle}
use bitswash.Session.{
  Session, Configuration, emit, set_torrent, modify_config, set_qindex, save, set_running,
  find_torrent_by_hash,
}
use bitswash.Session.Adding.{is_empty, add_torrent_to_session, add_magnet_uri_to_session}
use bitswash.Session.Stopping.{with_handle}
use bitswash.Session.Vector.{for_queue}
use bitswash.Session.Membership.{enqueue}

-- The sizes of the selected files and of all files. `filespriority` counts only if it has an entry
-- for each file.
unfoldable pub selected_size : List FileEntry → List ℕ → ℕ
selected_size [] ps = 0
selected_size (f ∷ fs) [] = 0
selected_size (f ∷ fs) (p ∷ ps) = (if p == file_none then 0 else f.file_size) + selected_size fs ps

unfoldable pub total_size : List FileEntry → ℕ
total_size [] = 0
total_size (f ∷ fs) = f.file_size + total_size fs

unfoldable pub selected_of : List FileEntry → List ℕ → ℕ
selected_of fs ps = if length ps == length fs then selected_size fs ps else total_size fs

unfoldable pub update_torrent_file_size : ℕ → Session → Session
update_torrent_file_size r s = elim (s.store r).info [
  | none ↦ s
  | some i ↦
      if i.info_is_valid
      then modify_config r
          (λ c. record c {
            selected_file_size = selected_of i.files c.files_priority;
            total_file_size = total_size i.files;
          })
          s
      else s
]

-- A magnet URI, as `MagnetUri` has parsed it.
pub record MagnetUri : Type 0 where
  pub uri_name : String
  pub uri_hash : ℕ
  pub uri_url : String

-- The last path of the history, or the directory for temporary files.
unfoldable pub last_path : World → List String → String
last_path w ps = elim (reverse ps) [
  | [] ↦ w.temp_dir
  | p ∷ rest ↦ if is_empty p then w.temp_dir else p
]

-- The new torrent, over the configuration `c` that its hash loads.
unfoldable pub magnet_torrent : World → Configuration → MagnetUri → TorrentConfig → Torrent
magnet_torrent w k u c = record {
  name = u.uri_name;
  hash = u.uri_hash;
  handle = none;
  info = none;
  config = record c {
    magnet_uri = u.uri_url;
    torrent_state = TorrentState.start;
    download_path = last_path w k.save_path_history;
  };
  isvalid = false;
}

-- `LoadMagnetUri`, with the fresh address `r` of the torrent.
unfoldable pub load_magnet_uri : World → ℕ → TorrentConfig → MagnetUri → Session → Session
load_magnet_uri w r c u s = elim (find_torrent_by_hash u.uri_hash s) [
  | some i ↦ s
  | none ↦
      if s.queue_torrent_set u.uri_hash || (u.uri_hash == 0)
      then s
      else (s
          |> set_torrent r (magnet_torrent w s.config u c)
          |> add_magnet_uri_to_session w r
          |> enqueue r)
]

-- One round of the numbering: `SetQIndex(i)` and the map entry.
unfoldable pub number_at : ℕ → ℕ → Session → Session
number_at i r s = let s1 = set_qindex r (pos i) s in set_running (s1.store r).hash i s1

-- `m_running_torrent_map.clear()` and the numbering of the sorted queue `q`.
unfoldable pub number_queue : List ℕ → Session → Option Session
number_queue q s =
    for_queue number_at (length q) 0
      (record s { torrent_queue = q; running_torrent_map = λ h. none })

-- The torrents that are put into libtorrent at once: the first `room` of those that are valid,
-- active, and have metadata.
unfoldable pub start_candidate : Session → ℕ → Bool
start_candidate s r =
    let t = s.store r in t.isvalid && (is_active t.config.torrent_state && has_info t)

unfoldable pub choose_started : Session → ℕ → List ℕ → List ℕ
choose_started s room [] = []
choose_started s room (r ∷ rs) =
    let taken = choose_started s (room - 1) rs in
    let passed = choose_started s room rs in
    if ltb 0 room && start_candidate s r then r ∷ taken else passed

unfoldable pub add_all : World → List ℕ → Session → Session
add_all w [] s = s
add_all w (r ∷ rs) s = add_all w rs (add_torrent_to_session w r s)

-- The end of `ScanTorrentsDirectory`, for the queue `q` that `std::sort` leaves.
unfoldable pub restore_queue : World → List ℕ → Session → Option Session
restore_queue w q s = elim (number_queue q s) [
  | none ↦ none
  | some s1 ↦ some (add_all w (choose_started s1 s1.config.max_start s1.torrent_queue) s1)
]

-- A torrent whose resume data need not be saved; its handle `n` is valid.
unfoldable pub is_saved : World → ℕ → ℕ → Session → Bool
is_saved w n r s =
    let st = w.handle_status s.history n in
    not st.has_metadata || (not st.need_save_resume || is_stop (s.store r).config.torrent_state)

-- A torrent still without metadata keeps its magnet URI for the next start.
unfoldable pub keep_magnet : World → ℕ → ℕ → Session → Session
keep_magnet w n r s =
    let uri = (s.store r).config.magnet_uri in
    if not (is_empty uri) && not (w.handle_status s.history n).has_metadata
    then emit (keep_magnet_uri uri) s
    else s

unfoldable pub save_handle : World → ℕ → ℕ → Session → Session
save_handle w n r s =
    if is_saved w n r s
    then keep_magnet w n r s
    else (s |> emit (save_resume_data n) |> emit (remove_handle n false))

-- One round of `SaveAllTorrent`.
unfoldable pub save_torrent_at : World → ℕ → ℕ → Session → Session
save_torrent_at w i r s =
    s |> set_qindex r (pos i) |> save r |> with_handle w r (λ n. save_handle w n r)

unfoldable pub save_all_torrent : World → Session → Option Session
save_all_torrent w s = for_queue (save_torrent_at w) (length s.torrent_queue) 0 s
