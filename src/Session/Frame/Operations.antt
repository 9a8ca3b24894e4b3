-- ===== src/Session/Frame/Operations.antt =====
-- Starting, stopping, queueing and configuring a torrent touch only that torrent.
use bitswash.Prelude.{◌≡◌, refl, ◌∙◌, ℕ, Option, none, some, not, ◌&&◌, ◌==◌, if◌then◌else◌}
use bitswash.Torrent.{TorrentState, TorrentInfo, is_started}
use bitswash.LibTorrent.{World, AddParams, TorrentStatus, async_add_torrent, graceful_pause}
use bitswash.Session.{Session, emit, set_torrent_state, set_stats}
use bitswash.Session.Adding.{
  async_add, add_torrent_to_session, add_magnet_uri_to_session, add_to_session, is_empty,
  magnet_params,
}
use bitswash.Session.Stopping.{
  with_handle, is_done, stop_handle, stop_torrent, queue_new, queue_torrent_state,
}
use bitswash.Session.Frame.Rules.{
  Local, Local-refl, ◌▹◌, Local-if, emit-Local, attempt-Local, insert_queued-Local,
  modify_config-Local, save-Local, with_handle-Local,
}

pub set_torrent_state-Local :
    (r : ℕ) (z : TorrentState) (s : Session) → Local r s (set_torrent_state r z s)
unfolding set_torrent_state
set_torrent_state-Local r z s = modify_config-Local r _ s

pub set_stats-Local : (r : ℕ) (st : TorrentStatus) (s : Session) → Local r s (set_stats r st s)
unfolding set_stats
set_stats-Local r st s = modify_config-Local r _ s

async_add-Local :
    (w : World) (r h : ℕ) (p : AddParams) (s : Session)
    → (s.store r).hash ≡ h
    → Local r s (async_add w h p s)
unfolding async_add
async_add-Local w r h p s e =
    let k = emit-Local {r = r} (async_add_torrent p) {s = s} in
    Local-if (w.throws s.history (async_add_torrent p)) Local-refl
      (k ▹ insert_queued-Local h (k.keeps.hashes r ∙ e))

pub add_torrent_to_session-Local :
    (w : World) (r : ℕ) (s : Session) → Local r s (add_torrent_to_session w r s)
unfolding add_torrent_to_session
add_torrent_to_session-Local w r s = async_add-Local w r _ _ s refl

pub add_magnet_uri_to_session-Local :
    (w : World) (r : ℕ) (s : Session) → Local r s (add_magnet_uri_to_session w r s)
unfolding add_magnet_uri_to_session
add_magnet_uri_to_session-Local w r s =
    Local-if (is_empty (s.store r).config.magnet_uri) Local-refl
      (go (w.parse_magnet_uri (s.store r).config.magnet_uri))
  where
    go :
        (o : Option AddParams)
        → Local r s (elim o [
          | none ↦ s
          | some p ↦
              if (s.store r).hash == 0
              then s
              else async_add w (s.store r).hash (magnet_params s.config (s.store r) p) s
        ])
    go none = Local-refl
    go (some p) = Local-if ((s.store r).hash == 0) Local-refl (async_add-Local w r _ _ s refl)

pub add_to_session-Local : (w : World) (r : ℕ) (s : Session) → Local r s (add_to_session w r s)
unfolding add_to_session
add_to_session-Local w r s = go (s.store r).info
  where
    go :
        (o : Option TorrentInfo)
        → Local r s (elim o [
          | some i ↦ add_torrent_to_session w r s
          | none ↦ add_magnet_uri_to_session w r s
        ])
    go none = add_magnet_uri_to_session-Local w r s
    go (some i) = add_torrent_to_session-Local w r s

stop_handle-Local : (w : World) (n r : ℕ) (s : Session) → Local r s (stop_handle w n r s)
unfolding stop_handle
stop_handle-Local w n r s =
    let st = w.handle_status (emit (graceful_pause n) s).history n in
    emit-Local _
    ▹ set_stats-Local r st _
    ▹ Local-if (st.has_metadata && not (is_done st.activity)) (attempt-Local w _ _)
        (attempt-Local w _ _)

pub stop_torrent-Local : (w : World) (r : ℕ) (s : Session) → Local r s (stop_torrent w r s)
unfolding stop_torrent
stop_torrent-Local w r s =
    with_handle-Local w r _ s (λ n t. stop_handle-Local w n r t)
    ▹ set_torrent_state-Local r _ _
    ▹ save-Local r _
    ▹ Local-if
        (is_started ((with_handle w r (λ n. stop_handle w n r) s).store r).config.torrent_state)
        (emit-Local _) Local-refl

queue_new-Local : (w : World) (r : ℕ) (s : Session) → Local r s (queue_new w r s)
unfolding queue_new
queue_new-Local w r s =
    Local-if (s.queue_torrent_set (s.store r).hash) Local-refl (add_to_session-Local w r s)

pub queue_torrent_state-Local :
    (w : World) (z : TorrentState) (r : ℕ) (s : Session) → Local r s (queue_torrent_state w z r s)
unfolding queue_torrent_state
queue_torrent_state-Local w z r s = set_torrent_state-Local r z s ▹ save-Local r _ ▹ go _ (_)
  where
    go :
        (t : Session) (h : Option ℕ)
        → Local r t (elim h [
          | none ↦ queue_new w r t
          | some n ↦
              if w.handle_is_valid t.history n
              then emit (graceful_pause n) (set_stats r (w.handle_status t.history n) t)
              else queue_new w r t
        ])
    go t none = queue_new-Local w r t
    go t (some n) =
        Local-if (w.handle_is_valid t.history n) (set_stats-Local r _ t ▹ emit-Local _)
          (queue_new-Local w r t)
