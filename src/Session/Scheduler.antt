-- ===== src/Session/Scheduler.antt =====
-- `CheckQueueItem` (src/bittorrentsession.cpp), which starts and queues torrents so that about
-- `max_start` of them run. The loop goes over the queue; the indices that the source collects are
-- addresses here, since starting and stopping leave the queue alone
-- (`check_queue_item-Keeps` of Session/Scheduling.antt). A ratio is `(upload / download) * 100` over integers.
use bitswash.Prelude.{
  ℕ, zero, suc, pos, ◌-◌, ◌*◌, ◌/◌, List, [], ◌∷◌, ◌++◌, Option, none, some, Bool, true, false, not,
  ◌&&◌, ◌||◌, ltb, leb, leb_ℤ, eqb_ℤ, half_ℤ, if◌then◌else◌, length,
}
use mathlib.Core.List.{reverse}
use bitswash.Torrent.{has_info, TorrentState}
use bitswash.LibTorrent.{World, TorrentStatus, Activity, set_max_connections}
use bitswash.Session.{Session, emit, handle_valid}
use bitswash.Session.Stopping.{with_handle, is_done, stop_torrent, queue_torrent}
use bitswash.Session.Starting.{start_torrent}

abbrev pub is_checking : Activity → Bool
is_checking Activity.checking_files = true
is_checking _ = false

-- `progress >= 1` is a million millionths.
abbrev pub is_complete : TorrentStatus → Bool
is_complete st =
    is_done st.activity || (leb 1_000_000 st.progress_ppm && not (is_checking st.activity))

abbrev pub seed_ratio : TorrentStatus → ℕ
seed_ratio st =
    if ltb 0 st.total_payload_download
    then st.total_payload_upload / st.total_payload_download * 100
    else 0

-- What the first loop makes of a torrent in the state `start`.
pub data Verdict : Type 0 where
  finished counted exempt : Verdict

-- The status of the torrent's handle, where the source looks at it.
unfoldable pub status_of : World → ℕ → Session → Option TorrentStatus
status_of w r s = elim (s.store r).handle [
  | none ↦ none
  | some n ↦
      if w.handle_is_valid s.history n && has_info (s.store r)
      then some (w.handle_status s.history n)
      else none
]

unfoldable pub judge : World → ℕ → Session → Verdict
judge w r s = elim (status_of w r s) [
  | none ↦ Verdict.counted
  | some st ↦
      if is_complete st
      then (if leb_ℤ (s.store r).config.torrent_ratio (pos (seed_ratio st))
          then Verdict.finished
          else if s.config.exclude_seed
          then Verdict.exempt
          else Verdict.counted)
      else Verdict.counted
]

-- A complete torrent below its ratio gives up half of its connections.
unfoldable pub halve_connections : World → ℕ → Session → Session
halve_connections w r s = elim (status_of w r s) [
  | none ↦ s
  | some st ↦
      let m = (s.store r).config.torrent_max_connections in
      if is_complete st
      then (with_handle w r
          (λ n t.
            if eqb_ℤ (w.handle_max_connections t.history n) m
            then emit (set_max_connections n (half_ℤ m)) t
            else t)
          s)
      else s
]

-- The session with `start_torrents` and `queue_torrents`, both in the order of the queue.
pub record Survey : Type 0 where
  pub session : Session
  pub start_torrents : List ℕ
  pub queue_torrents : List ℕ

-- The first loop's round for one torrent.
unfoldable pub survey_started : World → ℕ → Survey → Survey
survey_started w r v = elim (judge w r v.session) [
  | Verdict.finished ↦ record v { session = stop_torrent w r v.session }
  | Verdict.counted ↦ record v {
    session = halve_connections w r v.session;
    start_torrents = v.start_torrents ++ r ∷ [];
  }
  | Verdict.exempt ↦ record v { session = halve_connections w r v.session }
]

unfoldable pub survey_forced : World → ℕ → Survey → Survey
survey_forced w r v =
    if not (handle_valid w r v.session) && has_info (v.session.store r)
    then record v { session = start_torrent w true r v.session }
    else v

unfoldable pub survey_one : World → ℕ → Survey → Survey
survey_one w r v = elim (v.session.store r).config.torrent_state [
  | TorrentState.start ↦ survey_started w r v
  | TorrentState.force_start ↦ survey_forced w r v
  | TorrentState.queue ↦ record v { queue_torrents = v.queue_torrents ++ r ∷ [] }
  | _ ↦ v
]

unfoldable pub survey : World → List ℕ → Survey → Survey
survey w [] v = v
survey w (r ∷ rs) v = survey w rs (survey_one w r v)

-- The second loop: of the first `n` torrents that count as started, those with no valid handle
-- are started.
unfoldable pub start_missing : World → ℕ → List ℕ → Session → Session
start_missing w zero rs s = s
start_missing w (suc n) [] s = s
start_missing w (suc n) (r ∷ rs) s =
    start_missing w n rs (if handle_valid w r s then s else start_torrent w false r s)

-- `while (start_count > maxstart && i >= 0)`: `extra` torrents are queued, the last ones first;
-- one that is just being added is passed over.
unfoldable pub queue_extra : World → ℕ → List ℕ → Session → Session
queue_extra w zero rs s = s
queue_extra w (suc extra) [] s = s
queue_extra w (suc extra) (r ∷ rs) s =
    let over = queue_extra w (suc extra) rs s in
    let next = queue_extra w extra rs (queue_torrent w r s) in
    if s.queue_torrent_set (s.store r).hash then over else next

-- `while (start_count++ < maxstart && i < size)`: the first `free` queued torrents are started.
unfoldable pub start_queued : World → ℕ → List ℕ → Session → Session
start_queued w zero rs s = s
start_queued w (suc free) [] s = s
start_queued w (suc free) (r ∷ rs) s = start_queued w free rs (start_torrent w false r s)

-- What follows the first loop.
unfoldable pub balance : World → Survey → Session
balance w v =
    let n = length v.start_torrents in
    let m = v.session.config.max_start in
    let s1 = start_missing w (if ltb m n then m else n) v.start_torrents v.session in
    if ltb m n
    then queue_extra w (n - m) (reverse v.start_torrents) s1
    else start_queued w (m - n) v.queue_torrents s1

unfoldable pub check_queue_item : World → Session → Session
check_queue_item w s =
    balance w
      (survey w s.torrent_queue (record { session = s; start_torrents = []; queue_torrents = [] }))
