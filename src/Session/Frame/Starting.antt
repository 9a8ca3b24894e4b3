-- ===== src/Session/Frame/Starting.antt =====
-- Configuring, starting and rechecking a torrent touch only that torrent.
use bitswash.Prelude.{ℕ, String, List, Option, none, some, Bool, false, ◌&&◌, if◌then◌else◌}
use bitswash.Torrent.{TorrentInfo, TorrentConfig, TorrentState}
use bitswash.LibTorrent.{World}
use bitswash.Session.{Session}
use bitswash.Session.Stopping.{queue_torrent, pause_torrent}
use bitswash.Session.Preview.{raise_files, prioritize_preview, prioritize}
use bitswash.Session.Configuring.{
  configure_files_priority, configure_trackers, is_unplaced, copy_data, restart, restore_path,
  move_storage, set_limits, apply_config, configure_torrent,
}
use bitswash.Session.Starting.{
  start_handle, mark_started, start_torrent, recheck_torrent, reannounce_torrent,
}
use bitswash.Session.Frame.Rules.{
  Local, Local-refl, ◌▹◌, Local-if, Local-if_snd, emit-Local, modify_config-Local, save-Local,
  with_handle-Local,
}
use bitswash.Session.Frame.Operations.{
  set_torrent_state-Local, add_torrent_to_session-Local, add_to_session-Local, stop_torrent-Local,
  queue_torrent_state-Local,
}

prioritize_preview-Local :
    (w : World) (r n : ℕ) (i : TorrentInfo) (ps : List ℕ) (s : Session)
    → Local r s (prioritize_preview w n i ps s)
unfolding prioritize_preview
prioritize_preview-Local w r n i ps s =
    Local-if (raise_files i.piece_length i.files ps (w.piece_priorities s.history n, false)).1
      (emit-Local _) Local-refl

prioritize-Local :
    (w : World) (n : ℕ) (i : TorrentInfo) (r : ℕ) (s : Session) → Local r s (prioritize w n i r s)
unfolding prioritize
prioritize-Local w n i r s =
    modify_config-Local r _ s
    ▹ emit-Local _
    ▹ Local-if _ (prioritize_preview-Local w r n i _ _) Local-refl
    ▹ save-Local r _

pub configure_files_priority-Local :
    (w : World) (i : TorrentInfo) (r : ℕ) (s : Session)
    → Local r s (configure_files_priority w i r s)
unfolding configure_files_priority
configure_files_priority-Local w i r s =
    with_handle-Local w r _ s (λ n t. prioritize-Local w n i r t)

pub configure_trackers-Local :
    (w : World) (r : ℕ) (s : Session) → Local r s (configure_trackers w r s)
unfolding configure_trackers
configure_trackers-Local w r s = with_handle-Local w r _ s (λ n t. emit-Local _)

copy_data-Local :
    (w : World) (r : ℕ) (old new : String) (s : Session) → Local r s (copy_data w old new s).1
unfolding copy_data
copy_data-Local w r old new s =
    Local-if_snd (w.dir_exists s.history old) _ _
      (Local-if_snd (w.dir_opens s.history old) _ _ (emit-Local _ ▹ emit-Local _) (emit-Local _))
      (Local-if_snd (w.file_exists s.history old) _ _
        (Local-if_snd (w.copy_file_succeeds s.history old) _ _ (emit-Local _ ▹ emit-Local _)
          (emit-Local _))
        Local-refl)

restart-Local : (w : World) (b : Bool) (r : ℕ) (s : Session) → Local r s (restart w b r s)
unfolding restart
restart-Local w b r s =
    Local-if (b && is_unplaced w r s) (add_torrent_to_session-Local w r s) Local-refl

restore_path-Local :
    (w : World) (existing old : String) (b : Bool) (r : ℕ) (s : Session)
    → Local r s (restore_path w existing old b r s)
unfolding restore_path
restore_path-Local w existing old b r s =
    modify_config-Local r _ s ▹ save-Local r _ ▹ Local-if _ (restart-Local w b r _) Local-refl

move_storage-Local :
    (w : World) (n : ℕ) (i : TorrentInfo) (r : ℕ) (s : Session) → Local r s (move_storage w n i r s)
unfolding move_storage
move_storage-Local w n i r s = Local-if _ Local-refl (
    Local-if _ (stop_torrent-Local w r s) Local-refl
    ▹ copy_data-Local w r _ _ _
    ▹ Local-if _ (restart-Local w _ r _) (restore_path-Local w _ _ _ r _))

set_limits-Local : (r n : ℕ) (c : TorrentConfig) (s : Session) → Local r s (set_limits n c s)
unfolding set_limits
set_limits-Local r n c s = emit-Local _ ▹ emit-Local _ ▹ emit-Local _ ▹ emit-Local _

apply_config-Local : (w : World) (n r : ℕ) (s : Session) → Local r s (apply_config w n r s)
unfolding apply_config
apply_config-Local w n r s = set_limits-Local r n _ s ▹ go _ _
  where
    go :
        (t : Session) (o : Option TorrentInfo)
        → Local r t (elim o [
          | none ↦ t
          | some i ↦ configure_trackers w r (configure_files_priority w i r t)
        ])
    go t none = Local-refl
    go t (some i) = configure_files_priority-Local w i r t ▹ configure_trackers-Local w r _

-- `ConfigureTorrent` keeps the queue and its map, also where it moves the data.
pub configure_torrent-Local :
    (w : World) (n r : ℕ) (s : Session) → Local r s (configure_torrent w n r s)
unfolding configure_torrent
configure_torrent-Local w n r s =
    go _ ▹ with_handle-Local w r _ _ (λ m t. apply_config-Local w m r t)
  where
    go :
        (o : Option TorrentInfo)
        → Local r s
            (elim o [ none ↦ s | some i ↦ if i.info_is_valid then move_storage w n i r s else s ])
    go none = Local-refl
    go (some i) = Local-if i.info_is_valid (move_storage-Local w n i r s) Local-refl

start_handle-Local :
    (w : World) (force : Bool) (n r : ℕ) (s : Session) → Local r s (start_handle w force n r s)
unfolding start_handle
start_handle-Local w force n r s =
    configure_torrent-Local w n r s
    ▹ Local-if force (emit-Local _) Local-refl
    ▹ Local-if _ (emit-Local _) Local-refl

mark_started-Local : (force : Bool) (r : ℕ) (s : Session) → Local r s (mark_started force r s)
unfolding mark_started
mark_started-Local force r s =
    Local-if _ Local-refl (set_torrent_state-Local r _ s ▹ save-Local r _)

pub start_torrent-Local :
    (w : World) (force : Bool) (r : ℕ) (s : Session) → Local r s (start_torrent w force r s)
unfolding start_torrent
start_torrent-Local w force r s =
    with_handle-Local w r _ s (λ n t. start_handle-Local w force n r t)
    ▹ mark_started-Local force r _
    ▹ Local-if _ (add_to_session-Local w r _) Local-refl

pub queue_torrent-Local : (w : World) (r : ℕ) (s : Session) → Local r s (queue_torrent w r s)
unfolding queue_torrent
queue_torrent-Local w r s = queue_torrent_state-Local w TorrentState.queue r s

pub pause_torrent-Local : (w : World) (r : ℕ) (s : Session) → Local r s (pause_torrent w r s)
unfolding pause_torrent
pause_torrent-Local w r s = queue_torrent_state-Local w TorrentState.pause r s

-- `RecheckTorrent`, with all that it stops, configures and starts, leaves the queue, its map, the
-- settings, every torrent's hash and every other torrent as they are, and of the set of hashes
-- that are being added it changes at most the torrent's own.
pub recheck_torrent-Local : (w : World) (r : ℕ) (s : Session) → Local r s (recheck_torrent w r s)
unfolding recheck_torrent
recheck_torrent-Local w r s =
    Local-if (s.store r).isvalid
      (Local-if _ (stop_torrent-Local w r s) Local-refl
        ▹ Local-if _ (emit-Local _) Local-refl
        ▹ Local-if _ (start_torrent-Local w _ r _)
            (Local-if _ (pause_torrent-Local w r _) Local-refl))
      Local-refl

pub reannounce_torrent-Local :
    (w : World) (r : ℕ) (s : Session) → Local r s (reannounce_torrent w r s)
unfolding reannounce_torrent
reannounce_torrent-Local w r s = with_handle-Local w r _ s (λ n t. emit-Local _)
