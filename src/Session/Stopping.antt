-- ===== src/Session/Stopping.antt =====
-- `StopTorrent`, the two `QueueTorrent` overloads and `PauseTorrent` of src/bittorrentsession.cpp.
use bitswash.Prelude.{ℕ, none, some, Bool, true, false, not, ◌&&◌, if◌then◌else◌, ◌|>◌}
use bitswash.Torrent.{TorrentState, is_started}
use bitswash.LibTorrent.{
  World, Activity, graceful_pause, save_resume_data, remove_torrent, post_queue_update,
}
use bitswash.Session.{Session, emit, attempt, set_torrent_state, set_stats, save}
use bitswash.Session.Adding.{add_to_session}

-- `lt::torrent_status::seeding` or `finished`.
abbrev pub is_done : Activity → Bool
is_done Activity.seeding = true
is_done Activity.finished = true
is_done _ = false

-- The part of `StopTorrent` that needs a valid handle, where `pause` and `status` do not throw.
unfoldable pub stop_handle : World → ℕ → ℕ → Session → Session
stop_handle w n r s =
    let s1 = emit (graceful_pause n) s in
    let st = w.handle_status s1.history n in
    let s2 = set_stats r st s1 in
    if st.has_metadata && not (is_done st.activity)
    then attempt w (save_resume_data n) s2
    else attempt w (remove_torrent n false) s2

-- Runs a step with the torrent's handle, if that is valid.
unfoldable pub with_handle : World → ℕ → (ℕ → Session → Session) → Session → Session
with_handle w r f s = elim (s.store r).handle [
  | none ↦ s
  | some n ↦ if w.handle_is_valid s.history n then f n s else s
]

-- `StopTorrent`, where `pause` and `status` do not throw, as in all that calls it here.
unfoldable pub stop_torrent : World → ℕ → Session → Session
stop_torrent w r s =
    let s1 = with_handle w r (λ n. stop_handle w n r) s in
    let state = (s1.store r).config.torrent_state in
    let s2 = s1 |> set_torrent_state r TorrentState.stop |> save r in
    if is_started state then emit post_queue_update s2 else s2

-- `StopTorrent` with the exceptions that leave it: `pause` and `status` stand before its `try`. The
-- result is whether one has left it, and the session.
unfoldable pub stop_torrent_or_throw : World → ℕ → Session → Bool × Session
stop_torrent_or_throw w r s = elim (s.store r).handle [
  | none ↦ (false, stop_torrent w r s)
  | some n ↦
      let paused = emit (graceful_pause n) s in
      if not (w.handle_is_valid s.history n)
      then (false, stop_torrent w r s)
      else if w.throws s.history (graceful_pause n)
      then (true, s)
      else if w.status_throws paused.history n
      then (true, paused)
      else (false, stop_torrent w r s)
]

-- `QueueTorrent` of a torrent with no valid handle: it is added, unless it is being added.
unfoldable pub queue_new : World → ℕ → Session → Session
queue_new w r s = if s.queue_torrent_set (s.store r).hash then s else add_to_session w r s

-- `QueueTorrent(torrent, state)`
unfoldable pub queue_torrent_state : World → TorrentState → ℕ → Session → Session
queue_torrent_state w state r s =
    let s1 = s |> set_torrent_state r state |> save r in
    elim (s1.store r).handle [
      | none ↦ queue_new w r s1
      | some n ↦
          if w.handle_is_valid s1.history n
          then (s1 |> set_stats r (w.handle_status s1.history n) |> emit (graceful_pause n))
          else queue_new w r s1
    ]

unfoldable pub queue_torrent : World → ℕ → Session → Session
queue_torrent w = queue_torrent_state w TorrentState.queue

unfoldable pub pause_torrent : World → ℕ → Session → Session
pause_torrent w = queue_torrent_state w TorrentState.pause
