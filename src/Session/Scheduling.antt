-- ===== src/Session/Scheduling.antt =====
-- The scheduler starts, stops and queues torrents, but moves none: the queue and the map of its
-- positions stay as they are.
use bitswash.Prelude.{
  ℕ, zero, suc, List, [], ◌∷◌, ◌++◌, not, ◌&&◌, ltb, if◌then◌else◌, length, Bool, true, false, some,
  Option, none, half_ℤ, eqb_ℤ,
}
use bitswash.Torrent.{TorrentState, has_info}
use bitswash.LibTorrent.{World, TorrentStatus, set_max_connections}
use bitswash.Session.{Session, emit, handle_valid}
use bitswash.Session.Stopping.{with_handle, stop_torrent}
use bitswash.Session.Starting.{start_torrent}
use bitswash.Session.Scheduler.{
  Verdict, Survey, judge, status_of, halve_connections, survey_started, survey_forced, survey_one,
  survey, start_missing, queue_extra, start_queued, balance, check_queue_item, is_complete,
}
use bitswash.Session.Frame.{
  Keeps, Keeps-refl, ◌▸◌, Keeps-if, emit-Keeps, with_handle-Keeps, stop_torrent-Local,
  start_torrent-Local, queue_torrent-Local,
}
use bitswash.Session.Index.{IsIndexed, Keeps-IsIndexed}

halve_connections-Keeps : (w : World) (r : ℕ) (s : Session) → Keeps s (halve_connections w r s)
unfolding halve_connections
halve_connections-Keeps w r s = go (status_of w r s)
  where
    go :
        (o : Option TorrentStatus)
        → Keeps s (elim o [
          | none ↦ s
          | some st ↦
              let m = (s.store r).config.torrent_max_connections in
              if is_complete st
              then (with_handle w r
                  (λ n t.
                    if eqb_ℤ (w.handle_max_connections t.history n) m
                    then emit (set_max_connections n (half_ℤ m)) t
                    else t)
                  s)
              else s
        ])
    go none = Keeps-refl
    go (some st) =
        Keeps-if (is_complete st)
          (with_handle-Keeps w r _ s (λ n t. Keeps-if _ (emit-Keeps _) Keeps-refl)) Keeps-refl

-- What the survey does for a torrent, by its verdict.
survey_started-Keeps :
    (w : World) (r : ℕ) (v : Survey) → Keeps v.session (survey_started w r v).session
unfolding survey_started
survey_started-Keeps w r v =
    elim (judge w r v.session)
      as (λ y.
        Keeps v.session
          (elim y as (λ _. Survey) [
            | Verdict.finished ↦ record v { session = stop_torrent w r v.session }
            | Verdict.counted ↦ record v {
              session = halve_connections w r v.session;
              start_torrents = v.start_torrents ++ r ∷ [];
            }
            | Verdict.exempt ↦ record v { session = halve_connections w r v.session }
          ]).session) [
            | Verdict.finished ↦ (stop_torrent-Local w r v.session).keeps
            | Verdict.counted ↦ halve_connections-Keeps w r v.session
            | Verdict.exempt ↦ halve_connections-Keeps w r v.session
          ]

Survey-if :
    {s : Session} (b : Bool) (u v : Survey)
    → Keeps s u.session
    → Keeps s v.session
    → Keeps s (if b then u else v).session
Survey-if true u v k l = k
Survey-if false u v k l = l

survey_forced-Keeps :
    (w : World) (r : ℕ) (v : Survey) → Keeps v.session (survey_forced w r v).session
unfolding survey_forced
survey_forced-Keeps w r v =
    Survey-if (not (handle_valid w r v.session) && has_info (v.session.store r))
      (record v { session = start_torrent w true r v.session }) v
      (start_torrent-Local w true r v.session).keeps Keeps-refl

survey_one-Keeps : (w : World) (r : ℕ) (v : Survey) → Keeps v.session (survey_one w r v).session
unfolding survey_one
survey_one-Keeps w r v =
    elim (v.session.store r).config.torrent_state
      as (λ z.
        Keeps v.session
          (elim z as (λ _. Survey) [
            | TorrentState.start ↦ survey_started w r v
            | TorrentState.force_start ↦ survey_forced w r v
            | TorrentState.queue ↦ record v { queue_torrents = v.queue_torrents ++ r ∷ [] }
            | _ ↦ v
          ]).session) [
            | TorrentState.start ↦ survey_started-Keeps w r v
            | TorrentState.force_start ↦ survey_forced-Keeps w r v
            | TorrentState.queue ↦ Keeps-refl
            | TorrentState.stop ↦ Keeps-refl
            | TorrentState.pause ↦ Keeps-refl
          ]

survey-Keeps : (w : World) (rs : List ℕ) (v : Survey) → Keeps v.session (survey w rs v).session
unfolding survey
survey-Keeps w [] v = Keeps-refl
survey-Keeps w (r ∷ rs) v = survey_one-Keeps w r v ▸ survey-Keeps w rs _

start_missing-Keeps :
    (w : World) (n : ℕ) (rs : List ℕ) (s : Session) → Keeps s (start_missing w n rs s)
unfolding start_missing
start_missing-Keeps w zero rs s = Keeps-refl
start_missing-Keeps w (suc n) [] s = Keeps-refl
start_missing-Keeps w (suc n) (r ∷ rs) s =
    Keeps-if (handle_valid w r s) Keeps-refl (start_torrent-Local w false r s).keeps
    ▸ start_missing-Keeps w n rs _

queue_extra-Keeps :
    (w : World) (extra : ℕ) (rs : List ℕ) (s : Session) → Keeps s (queue_extra w extra rs s)
unfolding queue_extra
queue_extra-Keeps w zero rs s = Keeps-refl
queue_extra-Keeps w (suc extra) [] s = Keeps-refl
queue_extra-Keeps w (suc extra) (r ∷ rs) s =
    Keeps-if (s.queue_torrent_set (s.store r).hash) (queue_extra-Keeps w (suc extra) rs s)
      ((queue_torrent-Local w r s).keeps ▸ queue_extra-Keeps w extra rs _)

start_queued-Keeps :
    (w : World) (free : ℕ) (rs : List ℕ) (s : Session) → Keeps s (start_queued w free rs s)
unfolding start_queued
start_queued-Keeps w zero rs s = Keeps-refl
start_queued-Keeps w (suc free) [] s = Keeps-refl
start_queued-Keeps w (suc free) (r ∷ rs) s =
    (start_torrent-Local w false r s).keeps ▸ start_queued-Keeps w free rs _

balance-Keeps : (w : World) (v : Survey) → Keeps v.session (balance w v)
unfolding balance
balance-Keeps w v =
    start_missing-Keeps w _ v.start_torrents v.session
    ▸ Keeps-if (ltb v.session.config.max_start (length v.start_torrents))
        (queue_extra-Keeps w _ _ _) (start_queued-Keeps w _ _ _)

check_queue_item-Keeps : (w : World) (s : Session) → Keeps s (check_queue_item w s)
unfolding check_queue_item
check_queue_item-Keeps w s = survey-Keeps w s.torrent_queue _ ▸ balance-Keeps w _

-- If the map of the queue is right, it is right after a pass of `CheckQueueItem`, whatever that
-- starts, stops and queues.
pub check_queue_item-IsIndexed :
    (w : World) (s : Session) → IsIndexed s → IsIndexed (check_queue_item w s)
check_queue_item-IsIndexed w s v = Keeps-IsIndexed (check_queue_item-Keeps w s) v
