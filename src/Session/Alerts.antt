-- ===== src/Session/Alerts.antt =====
-- `HandleTorrentAlerts` (src/bittorrentsession.cpp), `HandleTorrentAddAlert`,
-- `HandleTorrentMetaDataAlert`, `SaveTorrentResumeData` and `GetPendingMetadata`: how the session
-- takes up what libtorrent reports. An alert carries a handle and, in place of `info_hash()`, the
-- hash of that. Alerts that are only logged are one constructor, and so are those with statistics,
-- which go to Counters. Calls on the handle of an alert are taken not to throw; `none` is a write
-- out of the queue's range or an empty pointer.
pub mod Dropped
use bitswash.Prelude.{
  ℕ, suc, pos, negsuc, ℤ, ◌+ℤ◌, List, [], ◌∷◌, ◌++◌, Option, none, some, Bool, true, false, not,
  ◌&&◌, ◌==◌, eqb_ℤ, if◌then◌else◌, length, get_elem?, ◌>>=◌, ◌|>◌,
}
use mathlib.Core.List.{reverse}
use bitswash.Torrent.{TorrentState, is_started, is_force_start, is_stop, is_pause}
use bitswash.LibTorrent.{
  World, graceful_pause, pause_torrent as pause_handle, remove_torrent as remove_handle,
  save_resume_data, save_resume_data_if_modified, unset_auto_managed, write_resume_file,
  notify_metadata,
}
use bitswash.Session.{
  Session, emit, set_torrent, modify_config, set_qindex, set_torrent_state, save, set_running,
  erase_running, erase_queued, find_torrent_by_hash, get_torrent,
}
use bitswash.Session.Adding.{is_empty}
use bitswash.Session.Stopping.{is_done}
use bitswash.Session.Starting.{start_torrent}
use bitswash.Session.Vector.{write_queue}
use bitswash.Session.Moving.{qindex_of}

-- The torrent at `r` takes the handle `n`, and is paused under it.
unfoldable pub adopt_handle : World → ℕ → ℕ → Session → Session
adopt_handle w n r s =
    let s1 = set_torrent r (record (s.store r) { handle = some n }) s in
    let s2 =
      if (w.handle_status s1.history n).has_metadata
      then emit (save_resume_data_if_modified n) s1
      else s1 in
    let s3 = set_torrent r (record (s2.store r) { isvalid = true }) s2 in
    let s4 =
      if is_empty (s3.store r).config.magnet_uri
      then modify_config r (λ c. record c { magnet_uri = w.make_magnet_uri s3.history n }) s3
      else s3 in
    s4 |> emit (unset_auto_managed n) |> emit (graceful_pause n)

-- `GetQIndex() == -1`
abbrev pub is_unindexed : ℤ → Bool
is_unindexed z = eqb_ℤ z (negsuc 0)

-- `index` and `qidx` of the search from the back, over the reversed queue: the position after the
-- last torrent with an index, and the index after that one's.
unfoldable pub last_indexed : Session → List ℕ → ℕ × ℤ
last_indexed s [] = (0, pos 0)
last_indexed s (r ∷ rs) =
    let rest = last_indexed s rs in
    if is_unindexed (qindex_of s r) then rest else (suc (length rs), qindex_of s r +ℤ pos 1)

-- The exchange of the queue entries. `*it` is the slot `index`, which is overwritten first.
unfoldable pub overwrite : ℕ → ℕ → ℕ → Session → Option Session
overwrite r index idx s = do
  s1 ← write_queue index r s
  other ← get_elem? s1.torrent_queue index
  s2 ← write_queue idx other s1
  some (s2 |> set_running (s2.store r).hash index |> set_running (s2.store other).hash idx)

-- A torrent at `idx` with no index gets one.
unfoldable pub assign_position : ℕ → ℕ → Session → Option Session
assign_position r idx s =
    if is_unindexed (qindex_of s r)
    then (let (index, q) = last_indexed s (reverse s.torrent_queue) in
        let s1 = set_qindex r q s in
        if not (index == length s.torrent_queue) && not (index == idx)
        then overwrite r index idx s1
        else some s1)
    else some s

-- The torrent starts or pauses, as its state before the alert says.
unfoldable pub resume_state : World → ℕ → TorrentState → ℕ → Session → Session
resume_state w n state r s =
    if is_started state
    then start_torrent w (is_force_start state) r s
    else if is_pause state && w.handle_is_valid s.history n
    then emit (graceful_pause n) s
    else s

-- The torrent at `r`, in position `idx`, was added under the handle `n`.
unfoldable pub accept_handle : World → ℕ → ℕ → ℕ → Session → Option Session
accept_handle w n r idx s =
    let s1 = adopt_handle w n r s in
    assign_position r idx s1 >>= λ s2.
    some (resume_state w n (s1.store r).config.torrent_state r s2)

-- `HandleTorrentAddAlert`; `at` throws out of range, and the handler then ends.
unfoldable pub handle_torrent_add : World → ℕ → ℕ → Session → Option Session
handle_torrent_add w n h s =
    let s1 = erase_queued h s in
    elim (find_torrent_by_hash h s1) [
      | none ↦
          if w.handle_is_valid s1.history n
          then some (s1 |> emit (pause_handle n) |> emit (remove_handle n false))
          else some s1
      | some idx ↦ elim (get_elem? s1.torrent_queue idx) [
        | none ↦ some s1
        | some r ↦ accept_handle w n r idx s1
      ]
    ]

-- The metadata of a torrent that was added by its magnet URI.
unfoldable pub adopt_metadata : World → ℕ → ℕ → ℕ → Session → Session
adopt_metadata w n h r s =
    let st = w.handle_status s.history n in
    let s1 = emit (save_resume_data n) s in
    let t = s1.store r in
    let s2 =
      set_torrent r
        (record t {
          name = st.status_name;
          handle = some n;
          info = some (w.torrent_file s1.history n);
        })
        s1 in
    emit notify_metadata (record s2 { metadata_queue = s2.metadata_queue ++ h ∷ [] })

unfoldable pub handle_metadata : World → ℕ → ℕ → Session → Session
handle_metadata w n h s =
    let s1 = emit (graceful_pause n) s in
    elim (find_torrent_by_hash h s1) [
      | none ↦ s1
      | some i ↦ elim (get_torrent (pos i) s1) [
        | none ↦ erase_running h s1
        | some r ↦ adopt_metadata w n h r s1
      ]
    ]

unfoldable pub save_torrent_resume_data : World → ℕ → ℕ → Session → Session
save_torrent_resume_data w n h s =
    if w.handle_is_valid s.history n && (w.handle_status s.history n).has_metadata
    then emit (write_resume_file h) s
    else s

-- A torrent that is stopped leaves libtorrent once its data is written.
unfoldable pub release_stopped : World → ℕ → ℕ → Session → Option Session
release_stopped w n h s = elim (find_torrent_by_hash h s) [
  | none ↦ some s
  | some i ↦ get_torrent (pos i) s >>= λ r.
      if is_stop (s.store r).config.torrent_state && w.handle_is_valid s.history n
      then some (emit (remove_handle n false) s)
      else some s
]

unfoldable pub handle_resume_data : World → ℕ → ℕ → Session → Option Session
handle_resume_data w n h s =
    let s1 = save_torrent_resume_data w n h s in
    if w.handle_is_valid s1.history n then release_stopped w n h s1 else some s1

-- A torrent whose data could not be saved leaves libtorrent and is stopped.
unfoldable pub stop_failed : World → ℕ → ℕ → Session → Option Session
stop_failed w n h s = elim (find_torrent_by_hash h s) [
  | none ↦ some s
  | some i ↦
      let s1 = emit (remove_handle n false) s in
      get_torrent (pos i) s1 >>= λ r. some (s1 |> set_torrent_state r TorrentState.stop |> save r)
]

unfoldable pub handle_resume_failed : World → Bool → ℕ → ℕ → Session → Option Session
handle_resume_failed w not_modified n h s =
    if w.handle_is_valid s.history n && not not_modified then stop_failed w n h s else some s

unfoldable pub handle_paused : World → ℕ → Session → Session
handle_paused w n s =
    let st = w.handle_status s.history n in
    if w.handle_is_valid s.history n && (st.has_metadata && not (is_done st.activity))
    then emit (save_resume_data n) s
    else s

-- The alerts that the session acts on: their handle, then the hash that names the torrent.
pub data Alert : Type 0 where
  added metadata_received resume_data : ℕ → ℕ → Alert
  resume_data_failed : Bool → ℕ → ℕ → Alert
  finished paused : ℕ → Alert
  logged stats : Alert

unfoldable pub handle_alert : World → Alert → Session → Option Session
handle_alert w (Alert.added n h) s = handle_torrent_add w n h s
handle_alert w (Alert.metadata_received n h) s = some (handle_metadata w n h s)
handle_alert w (Alert.resume_data n h) s = handle_resume_data w n h s
handle_alert w (Alert.resume_data_failed b n h) s = handle_resume_failed w b n h s
handle_alert w (Alert.finished n) s = some (emit (save_resume_data n) s)
handle_alert w (Alert.paused n) s = some (handle_paused w n s)
handle_alert w Alert.logged s = some s
handle_alert w Alert.stats s = some s

-- The handler of statistics returns.
abbrev pub is_last : Alert → Bool
is_last Alert.stats = true
is_last _ = false

unfoldable pub handle_alerts : World → List Alert → Session → Option Session
handle_alerts w [] s = some s
handle_alerts w (a ∷ rest) s =
    handle_alert w a s >>= λ s1. let t = handle_alerts w rest s1 in if is_last a then some s1 else t

-- `GetPendingMetadata` hands the queue of hashes over and empties it.
unfoldable pub get_pending_metadata : Session → List ℕ × Session
get_pending_metadata s = (s.metadata_queue, record s { metadata_queue = [] })
