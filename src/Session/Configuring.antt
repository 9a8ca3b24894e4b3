-- ===== src/Session/Configuring.antt =====
-- `ConfigureTorrent`, `ConfigureTorrentFilesPriority` and `ConfigureTorrentTrackers` of
-- src/bittorrentsession.cpp, as built where paths are compared with case.
use bitswash.Prelude.{
  ℕ, String, none, some, Bool, true, false, not, ◌&&◌, ◌||◌, if◌then◌else◌, str_eq, ◌<>◌, ◌|>◌,
}
use bitswash.Torrent.{TorrentConfig, TorrentInfo, is_started}
use bitswash.LibTorrent.{
  World, copy_directory, copy_file, remove_file, remove_empty_directory, replace_trackers,
  set_upload_limit, set_download_limit, set_max_uploads, set_max_connections,
}
use bitswash.Session.{Session, emit, modify_config, save}
use bitswash.Session.Adding.{is_empty, add_torrent_to_session}
use bitswash.Session.Stopping.{with_handle, stop_torrent}
use bitswash.Session.Preview.{prioritize}

unfoldable pub configure_files_priority : World → TorrentInfo → ℕ → Session → Session
configure_files_priority w i r = with_handle w r (λ n. prioritize w n i r)

unfoldable pub configure_trackers : World → ℕ → Session → Session
configure_trackers w r =
    with_handle w r λ n s. emit (replace_trackers n (s.store r).config.trackers_url) s

-- `!h.is_valid() || h.status(query_save_path).save_path.empty()`
unfoldable pub is_unplaced : World → ℕ → Session → Bool
is_unplaced w r s = elim (s.store r).handle [
  | none ↦ true
  | some n ↦ not (w.handle_is_valid s.history n) || is_empty (w.handle_status s.history n).save_path
]

-- Copies what stands at the old path, and removes the original; false if that failed.
unfoldable pub copy_data : World → String → String → Session → Bool × Session
copy_data w old new s =
    if w.dir_exists s.history old
    then (let s1 = emit (copy_directory old new) s in
        if w.dir_opens s.history old
        then (true, emit (remove_empty_directory old) s1)
        else (false, s1))
    else (if w.file_exists s.history old
        then (let s1 = emit (copy_file old new) s in
            if w.copy_file_succeeds s.history old
            then (true, emit (remove_file old) s1)
            else (false, s1))
        else (false, s))

-- Puts a torrent that was running back into the session, if the stop took it out.
unfoldable pub restart : World → Bool → ℕ → Session → Session
restart w running r s = if running && is_unplaced w r s then add_torrent_to_session w r s else s

-- The old path stays the download path if the copy failed.
unfoldable pub restore_path : World → String → String → Bool → ℕ → Session → Session
restore_path w existing old running r s =
    let s1 =
      s |> modify_config r (λ c. record c { download_path = w.dir_with_sep existing }) |> save r in
    if w.dir_exists s1.history old then restart w running r s1 else s1

-- The move of a torrent's data to a new download path.
unfoldable pub move_storage : World → ℕ → TorrentInfo → ℕ → Session → Session
move_storage w n i r s =
    let existing = (w.handle_status s.history n).save_path in
    let old = w.absolute_dir (existing <> i.info_name) in
    let new = w.absolute_dir ((s.store r).config.download_path <> i.info_name) in
    let running = is_started (s.store r).config.torrent_state in
    if str_eq old new
    then s
    else (let s1 = if running then stop_torrent w r s else s in
        let (copied, s2) = copy_data w old new s1 in
        if copied then restart w running r s2 else restore_path w existing old running r s2)

unfoldable pub set_limits : ℕ → TorrentConfig → Session → Session
set_limits n c s =
    s
    |> emit (set_upload_limit n c.upload_limit)
    |> emit (set_download_limit n c.download_limit)
    |> emit (set_max_uploads n c.torrent_max_uploads)
    |> emit (set_max_connections n c.torrent_max_connections)

-- The last part of `ConfigureTorrent`, under `h.is_valid()`.
unfoldable pub apply_config : World → ℕ → ℕ → Session → Session
apply_config w n r s =
    let s1 = set_limits n (s.store r).config s in
    elim (s1.store r).info [
      | none ↦ s1
      | some i ↦ s1 |> configure_files_priority w i r |> configure_trackers w r
    ]

-- For the handle `n` of the torrent at `r`, which callers have checked.
unfoldable pub configure_torrent : World → ℕ → ℕ → Session → Session
configure_torrent w n r s =
    let s1 : Session = elim (s.store r).info [
      | none ↦ s
      | some i ↦ if i.info_is_valid then move_storage w n i r s else s
    ] in
    with_handle w r (λ m. apply_config w m r) s1
