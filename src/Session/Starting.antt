-- ===== src/Session/Starting.antt =====
-- `StartTorrent`, `RecheckTorrent` and `ReannounceTorrent` of src/bittorrentsession.cpp.
use bitswash.Prelude.{ℕ, Bool, if◌then◌else◌, ◌|>◌}
use bitswash.Torrent.{TorrentState, is_started, is_active, is_force_start, is_pause}
use bitswash.LibTorrent.{World, clear_error, resume, remove_resume_file, force_reannounce}
use bitswash.Session.{Session, emit, set_torrent_state, save}
use bitswash.Session.Adding.{add_to_session}
use bitswash.Session.Stopping.{with_handle, stop_torrent, pause_torrent}
use bitswash.Session.Configuring.{configure_torrent, is_unplaced}

-- Configures and resumes a torrent whose handle is valid.
unfoldable pub start_handle : World → Bool → ℕ → ℕ → Session → Session
start_handle w force n r s =
    let s1 = configure_torrent w n r s in
    let s2 = if force then emit (clear_error n) s1 else s1 in
    if (w.handle_status s2.history n).paused then emit (resume n) s2 else s2

-- A forced torrent stays forced.
unfoldable pub mark_started : Bool → ℕ → Session → Session
mark_started force r s =
    if is_force_start (s.store r).config.torrent_state
    then s
    else (s
        |> set_torrent_state r (if force then TorrentState.force_start else TorrentState.start)
        |> save r)

unfoldable pub start_torrent : World → Bool → ℕ → Session → Session
start_torrent w force r s =
    let s1 = with_handle w r (λ n. start_handle w force n r) s in
    let s2 = mark_started force r s1 in if is_unplaced w r s2 then add_to_session w r s2 else s2

unfoldable pub reannounce_torrent : World → ℕ → Session → Session
reannounce_torrent w r = with_handle w r (λ n. emit (force_reannounce n))

-- Stops the torrent, drops its fast resume data, and brings it back as it was.
unfoldable pub recheck_torrent : World → ℕ → Session → Session
recheck_torrent w r s =
    let previous = (s.store r).config.torrent_state in
    let s1 = if is_active previous then stop_torrent w r s else s in
    let s2 =
      if w.resume_file_exists s1.history (s1.store r).hash
      then emit (remove_resume_file (s1.store r).hash) s1
      else s1 in
    if (s.store r).isvalid
    then (if is_started previous
        then start_torrent w (is_force_start previous) r s2
        else if is_pause previous
        then pause_torrent w r s2
        else s2)
    else s
