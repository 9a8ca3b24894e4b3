-- ===== src/Session/Index/Alerts.antt =====
-- What libtorrent reports keeps the index of the queue, but for one case: a torrent that has no
-- index yet and is put before others takes the place of another torrent.
use bitswash.Prelude.{
  ℕ, suc, ◌⊎◌, sym, Returns-bind, pos, some, Bool, false, not, ◌≡◌, refl, ap, ◌∙◌, inl, inr, ◌&&◌,
  arith, get_elem?, length, Option-cases, Returns, returns, Returns-if,
}
use bitswash.Torrent.{Torrent, TorrentState, is_started, is_force_start, is_pause}
use bitswash.LibTorrent.{
  World, graceful_pause, pause_torrent as pause_handle, remove_torrent as remove_handle,
}
use bitswash.Session.{
  Session, emit, set_torrent, modify_config, erase_queued, find_torrent_by_hash, get_torrent,
}
use bitswash.Session.Moving.{qindex_of}
use bitswash.Session.Alerts.{
  Alert, adopt_handle, is_unindexed, resume_state, handle_torrent_add, adopt_metadata,
  handle_metadata, save_torrent_resume_data, release_stopped, handle_resume_data,
  handle_resume_failed, handle_paused, handle_alert, stop_failed, accept_handle,
}
use bitswash.Session.Frame.{
  Keeps, Keeps-refl, ◌▸◌, Keeps-if, emit-Keeps, modify_config-Keeps, save-Keeps,
  set_torrent_state-Local, start_torrent-Local,
}
use bitswash.Session.Index.Arrival.{ButLast, assign_position-Keeps}
use bitswash.Session.Index.{IsIndexed, Keeps-IsIndexed}

-- A write to a torrent that leaves its hash alone.
set_torrent-Keeps :
    (r : ℕ) (t : Torrent) {s : Session} → t.hash ≡ (s.store r).hash → Keeps s (set_torrent r t s)
unfolding set_torrent
set_torrent-Keeps r t e = record { queue = refl; map = refl; hashes = λ q. ground (arith, e) }

erase_queued-Keeps : (h : ℕ) {s : Session} → Keeps s (erase_queued h s)
unfolding erase_queued
erase_queued-Keeps h = record { queue = refl; map = refl; hashes = λ r. refl }

adopt_handle-Keeps : (w : World) (n r : ℕ) (s : Session) → Keeps s (adopt_handle w n r s)
unfolding adopt_handle
adopt_handle-Keeps w n r s =
    set_torrent-Keeps r _ refl
    ▸ Keeps-if _ (emit-Keeps _) Keeps-refl
    ▸ set_torrent-Keeps r _ refl
    ▸ Keeps-if _ (modify_config-Keeps r _ _) Keeps-refl
    ▸ emit-Keeps _
    ▸ emit-Keeps _

resume_state-Keeps :
    (w : World) (n : ℕ) (z : TorrentState) (r : ℕ) (s : Session) → Keeps s (resume_state w n z r s)
unfolding resume_state
resume_state-Keeps w n z r s =
    Keeps-if (is_started z) (start_torrent-Local w (is_force_start z) r s).keeps
      (Keeps-if (is_pause z && w.handle_is_valid s.history n) (emit-Keeps _) Keeps-refl)

adopt_metadata-Keeps : (w : World) (n h r : ℕ) (s : Session) → Keeps s (adopt_metadata w n h r s)
unfolding adopt_metadata
adopt_metadata-Keeps w n h r s =
    emit-Keeps _
    ▸ set_torrent-Keeps r _ refl
    ▸ record { queue = refl; map = refl; hashes = λ q. refl }
    ▸ emit-Keeps _

-- The torrent that the map names is in range.
get_torrent-found :
    {s : Session} (h i : ℕ)
    → IsIndexed s
    → find_torrent_by_hash h s ≡ some i
    → (r : ℕ) × (get_torrent (pos i) s ≡ some r)
unfolding find_torrent_by_hash get_torrent
get_torrent-found h i v e = let (r, d, f) = v.found h i e in (r, d)

handle_metadata-IsIndexed :
    (w : World) (n h : ℕ) {s : Session} → IsIndexed s → IsIndexed (handle_metadata w n h s)
unfolding handle_metadata
handle_metadata-IsIndexed w n h {s} v =
    let u = Keeps-IsIndexed (emit-Keeps (graceful_pause n)) v in
    elim (Option-cases (find_torrent_by_hash h (emit (graceful_pause n) s))) [
      | inl e ↦ rw (e, handle_metadata) u
      | inr (i, e) ↦
          let (r, d) = get_torrent-found h i u e in
          rw (e, handle_metadata, d)
            (Keeps-IsIndexed (adopt_metadata-Keeps w n h r (emit (graceful_pause n) s)) u)
    ]

release_stopped-IsIndexed :
    (w : World) (n h : ℕ) {s : Session} → IsIndexed s → Returns IsIndexed (release_stopped w n h s)
unfolding release_stopped
release_stopped-IsIndexed w n h {s} v = elim (Option-cases (find_torrent_by_hash h s)) [
  | inl e ↦ rw (e, release_stopped) (returns v)
  | inr (i, e) ↦
      let (r, d) = get_torrent-found h i v e in
      rw (e, release_stopped, d)
        (Returns-if _ (returns (Keeps-IsIndexed (emit-Keeps _) v)) (λ _. returns v))
]

handle_resume_data-IsIndexed :
    (w : World) (n h : ℕ) {s : Session}
    → IsIndexed s
    → Returns IsIndexed (handle_resume_data w n h s)
unfolding handle_resume_data save_torrent_resume_data
handle_resume_data-IsIndexed w n h {s} v =
    let u =
      Keeps-IsIndexed
        (Keeps-if (w.handle_is_valid s.history n && (w.handle_status s.history n).has_metadata)
          (emit-Keeps _) Keeps-refl)
        v in
    Returns-if _ (release_stopped-IsIndexed w n h u) (λ _. returns u)

stop_failed-IsIndexed :
    (w : World) (n h : ℕ) {s : Session} → IsIndexed s → Returns IsIndexed (stop_failed w n h s)
unfolding stop_failed emit find_torrent_by_hash
stop_failed-IsIndexed w n h {s} v = elim (Option-cases (find_torrent_by_hash h s)) [
  | inl e ↦ rw (e, stop_failed) (returns v)
  | inr (i, e) ↦
      let u = Keeps-IsIndexed (emit-Keeps (remove_handle n false)) v in
      let (r, d) = get_torrent-found h i u e in
      rw (e, stop_failed, d)
        (returns (
          Keeps-IsIndexed
            ((set_torrent_state-Local r TorrentState.stop (emit (remove_handle n false) s)).keeps
              ▸ save-Keeps r _)
            u))
]

handle_resume_failed-IsIndexed :
    (w : World) (b : Bool) (n h : ℕ) {s : Session}
    → IsIndexed s
    → Returns IsIndexed (handle_resume_failed w b n h s)
unfolding handle_resume_failed
handle_resume_failed-IsIndexed w b n h {s} v =
    Returns-if (w.handle_is_valid s.history n && not b) (stop_failed-IsIndexed w n h v)
      (λ _. returns v)

handle_paused-Keeps : (w : World) (n : ℕ) (s : Session) → Keeps s (handle_paused w n s)
unfolding handle_paused
handle_paused-Keeps w n s = Keeps-if _ (emit-Keeps _) Keeps-refl

adopt_handle-qindex :
    (w : World) (n r q : ℕ) (s : Session) → qindex_of (adopt_handle w n r s) q ≡ qindex_of s q
unfolding adopt_handle set_torrent modify_config emit
adopt_handle-qindex w n r q s = ground arith

accept_handle-IsIndexed :
    (w : World) (n r i : ℕ) {s : Session}
    → IsIndexed s
    → ButLast s s.torrent_queue
    → get_elem? s.torrent_queue i ≡ some r
    → Returns IsIndexed (accept_handle w n r i s)
unfolding accept_handle
accept_handle-IsIndexed w n r i {s} v a e =
    let k = adopt_handle-Keeps w n r s in
    Returns-bind
      (assign_position-Keeps r i (adopt_handle w n r s)
        (λ j q d. kept j q (a j q (ap (λ xs. get_elem? xs j) (sym k.queue) ∙ d)))
        (ap (λ xs. get_elem? xs i) k.queue ∙ e))
      λ t l. returns (Keeps-IsIndexed (k ▸ l ▸ resume_state-Keeps w n _ r t) v)
  where
    kept :
        (j q : ℕ)
        → ((is_unindexed (qindex_of s q) ≡ false) ⊎ (suc j ≡ length s.torrent_queue))
        → (is_unindexed (qindex_of (adopt_handle w n r s) q) ≡ false)
          ⊎ (suc j ≡ length (adopt_handle w n r s).torrent_queue)
    kept j q (inl d) = inl (ap is_unindexed (adopt_handle-qindex w n r q s) ∙ d)
    kept j q (inr d) = inr (d ∙ ap length (sym (adopt_handle-Keeps w n r s).queue))

handle_torrent_add-IsIndexed :
    (w : World) (n h : ℕ) {s : Session}
    → IsIndexed s
    → ButLast s s.torrent_queue
    → Returns IsIndexed (handle_torrent_add w n h s)
unfolding handle_torrent_add find_torrent_by_hash erase_queued
handle_torrent_add-IsIndexed w n h {s} v a =
    let u = Keeps-IsIndexed (erase_queued-Keeps h) v in
    elim (Option-cases (s.running_torrent_map h)) [
      | inl e ↦
          rw (e, handle_torrent_add, find_torrent_by_hash)
            (Returns-if _
              (returns (
                Keeps-IsIndexed (emit-Keeps (pause_handle n) ▸ emit-Keeps (remove_handle n false))
                  u))
              (λ _. returns u))
      | inr (i, e) ↦
          let (r, d, f) = v.found h i e in
          rw (e, handle_torrent_add, find_torrent_by_hash, d)
            (accept_handle-IsIndexed w n r i u a d)
    ]

-- Whatever alert libtorrent reports, if the map of the queue is right and each torrent of the
-- queue but the last one has an index, the handler accesses no torrent out of range and leaves
-- the map right.
pub handle_alert-IsIndexed :
    (w : World) (a : Alert) {s : Session}
    → IsIndexed s
    → ButLast s s.torrent_queue
    → Returns IsIndexed (handle_alert w a s)
unfolding handle_alert
handle_alert-IsIndexed w (Alert.added n h) v i = handle_torrent_add-IsIndexed w n h v i
handle_alert-IsIndexed w (Alert.metadata_received n h) v i =
    returns (handle_metadata-IsIndexed w n h v)
handle_alert-IsIndexed w (Alert.resume_data n h) v i = handle_resume_data-IsIndexed w n h v
handle_alert-IsIndexed w (Alert.resume_data_failed b n h) v i =
    handle_resume_failed-IsIndexed w b n h v
handle_alert-IsIndexed w (Alert.finished n) v i = returns (Keeps-IsIndexed (emit-Keeps _) v)
handle_alert-IsIndexed w (Alert.paused n) v i =
    returns (Keeps-IsIndexed (handle_paused-Keeps w n _) v)
handle_alert-IsIndexed w Alert.logged v i = returns v
handle_alert-IsIndexed w Alert.stats v i = returns v
