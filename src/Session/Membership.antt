-- ===== src/Session/Membership.antt =====
-- `AddTorrent`, `RemoveTorrent` and `MergeTorrent` of src/bittorrentsession.cpp.
-- The loop of `RemoveTorrent` over the file of magnet URIs changes only its copy in memory, which
-- is never written back, so it has no effect here.
use bitswash.Prelude.{
  ℕ, ◌-◌, String, List, [], ◌∷◌, ◌++◌, Option, none, some, Bool, true, false, ◌&&◌, map, ◌==◌,
  if◌then◌else◌, length, ◌>>=◌, ◌|>◌, ◌<>◌,
}
use bitswash.Torrent.{TorrentInfo, FileEntry, AnnounceEntry, WebSeed, is_active, file_none}
use bitswash.LibTorrent.{
  World, Effect, pause_torrent as pause_handle, remove_torrent as remove_handle, remove_resume_file,
  remove_conf_file, remove_torrent_file, remove_parts_file, remove_file, remove_directory,
  change_directory, post_queue_update, add_tracker, add_url_seed, add_http_seed,
}
use bitswash.Session.{
  Session, emit, find_torrent_by_hash, insert_running, erase_running, erase_queued, set_queue,
}
use bitswash.Session.Adding.{add_torrent_to_session}
use bitswash.Session.Stopping.{with_handle}
use bitswash.Session.Vector.{erase_queue, reindex}

-- `push_back` and the map entry, under the lock.
unfoldable pub enqueue : ℕ → Session → Session
enqueue r s =
    s
    |> set_queue (s.torrent_queue ++ r ∷ [])
    |> insert_running (s.store r).hash (length s.torrent_queue)

unfoldable pub add_torrent : World → ℕ → Session → Bool × Session
add_torrent w r s = elim (find_torrent_by_hash (s.store r).hash s) [
  | some i ↦ (false, s)
  | none ↦
      let s1 = enqueue r s in
      if is_active (s1.store r).config.torrent_state
      then (true, add_torrent_to_session w r s1)
      else (true, s1)
]

-- The part of `RemoveTorrent` under the lock, for a torrent found at position `i`.
unfoldable pub dequeue : ℕ → ℕ → Session → Option Session
dequeue r i s = do
  let h = (s.store r).hash
  s1 ← erase_queue i (s |> erase_queued h |> erase_running h)
  reindex (length s1.torrent_queue - i) i s1

-- `if (wxFileExists(f) && !wxRemoveFile(f))`, which tries to remove a file that exists.
unfoldable pub remove_if : Bool → Effect → Session → Session
remove_if exists e s = if exists then emit e s else s

unfoldable pub remove_saved_files : World → ℕ → Session → Session
remove_saved_files w h s =
    let s1 = remove_if (w.resume_file_exists s.history h) (remove_resume_file h) s in
    let s2 = remove_if (w.conf_file_exists s1.history h) (remove_conf_file h) s1 in
    let s3 = remove_if (w.torrent_file_exists s2.history h) (remove_torrent_file h) s2 in
    remove_if (w.parts_file_exists s3.history h) (remove_parts_file h) s3

-- `download_data`, leaving its directory first if that is the working directory.
unfoldable pub remove_data : World → ℕ → Session → Session
remove_data w r s =
    let t = s.store r in
    let path = t.config.download_path <> t.name in
    if w.dir_exists s.history path
    then (let s1 =
          remove_if (w.is_working_directory s.history t.config.download_path)
            (change_directory t.config.download_path) s in
        emit (remove_directory path) s1)
    else remove_if (w.file_exists s.history path) (remove_file path) s

-- Removes the placeholders of files that were not selected. `filespriority[i]` is unchecked.
unfoldable pub remove_unselected :
    World → String → List FileEntry → List ℕ → Session → Option Session
remove_unselected w dir [] ps s = some s
remove_unselected w dir (f ∷ fs) [] s = none
remove_unselected w dir (f ∷ fs) (p ∷ ps) s =
    let path = dir <> f.path in
    remove_unselected w dir fs ps
      (remove_if ((p == file_none) && w.file_exists s.history path) (remove_file path) s)

unfoldable pub remove_placeholders : World → ℕ → Session → Option Session
remove_placeholders w r s = elim (s.store r).info [
  | none ↦ some s
  | some i ↦
      let c = (s.store r).config in
      if i.info_is_valid
      then remove_unselected w c.download_path i.files c.files_priority s
      else some s
]

-- `h.pause(); remove_torrent(h, options)` for a valid handle.
unfoldable pub drop_handle : World → Bool → ℕ → Session → Session
drop_handle w deletedata r =
    with_handle w r λ n s. s |> emit (pause_handle n) |> emit (remove_handle n deletedata)

unfoldable pub announce_removal : ℕ → Session → Session
announce_removal r s =
    if is_active (s.store r).config.torrent_state then emit post_queue_update s else s

unfoldable pub remove_torrent : World → Bool → ℕ → Session → Option Session
remove_torrent w deletedata r s = elim (find_torrent_by_hash (s.store r).hash s) [
  | none ↦ some s
  | some i ↦ dequeue r i s >>= λ s1.
      let s2 = s1 |> drop_handle w deletedata r |> remove_saved_files w (s.store r).hash in
      remove_placeholders w r (if deletedata then remove_data w r s2 else s2) >>= λ s3.
      some (announce_removal r s3)
]

unfoldable pub add_trackers : ℕ → List AnnounceEntry → Session → Session
add_trackers n [] s = s
add_trackers n (t ∷ ts) s = add_trackers n ts (emit (add_tracker n t) s)

unfoldable pub add_web_seeds : ℕ → List WebSeed → Session → Session
add_web_seeds n [] s = s
add_web_seeds n (WebSeed.url_seed u ∷ us) s = add_web_seeds n us (emit (add_url_seed n u) s)
add_web_seeds n (WebSeed.http_seed u ∷ us) s = add_web_seeds n us (emit (add_http_seed n u) s)
add_web_seeds n (WebSeed.other_seed u ∷ us) s = add_web_seeds n us s

-- `MergeTorrent(dst_torrent, src_torrent)`, for the metadata `i` of the source.
unfoldable pub merge_torrent : World → ℕ → TorrentInfo → Session → Session
merge_torrent w dst i =
    with_handle w dst λ n s. s |> add_trackers n i.trackers |> add_web_seeds n i.web_seeds

-- `MergeTorrent(dst_torrent, src_magneturi)`; a tracker is an `announce_entry` of its address.
unfoldable pub merge_magnet_uri : World → ℕ → List String → List String → Session → Session
merge_magnet_uri w dst trackers seeds = with_handle w dst λ n s.
    s
    |> add_trackers n (map (λ u. record { url = u; tier = 0 }) trackers)
    |> add_web_seeds n (map WebSeed.url_seed seeds)
