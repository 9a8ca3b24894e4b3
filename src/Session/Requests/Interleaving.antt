-- ===== src/Session/Requests/Interleaving.antt =====
-- Requests, alerts and passes of the scheduler in any order keep the map of the queue right.
use bitswash.Prelude.{
  ℕ, ℤ, zero, suc, pos, negsuc, Option, none, some, Bool, true, length, ◌≡◌, inl, inr, Option-cases,
  Returns, returns, Returns-if, Returns-map, Returns-value,
}
use bitswash.Torrent.{TorrentInfo}
use bitswash.LibTorrent.{World}
use bitswash.Session.{Session, get_torrent, find_torrent_by_hash}
use bitswash.Session.Membership.{remove_torrent}
use bitswash.Session.Frame.{
  Keeps, Keeps-refl, Keeps-if, Logs-Keeps, HasPriorities, merge_torrent-Logs, merge_magnet_uri-Logs,
  start_torrent-Local, stop_torrent-Local, queue_torrent-Local, pause_torrent-Local,
  recheck_torrent-Local, reannounce_torrent-Local, configure_trackers-Local,
  configure_files_priority-Local, configure_torrent-Local,
}
use bitswash.Session.Index.{IsIndexed, Keeps-IsIndexed}
use bitswash.Session.Index.Arrival.{ButLast}
use bitswash.Session.Index.Alerts.{handle_alert-IsIndexed}
use bitswash.Session.Index.Loading.{IsFresh, load_magnet_uri-IsIndexed}
use bitswash.Session.Index.Membership.{add_torrent-IsIndexed}
use bitswash.Session.Index.Removal.{remove_torrent-Removed}
use bitswash.Session.Index.Operations.{
  IndicesInRange, move_torrent_up-IsIndexed, move_torrent_down-IsIndexed,
  move_torrent_top-IsIndexed, move_torrent_bottom-IsIndexed,
}
use bitswash.Session.Scheduling.{check_queue_item-IsIndexed}
use bitswash.Session.ByIndex.{
  at_index, try_at_index, if_valid, remove_at, start_at, stop_at, queue_at, pause_at, move_up_at,
  move_down_at, cannot_move_down, reannounce_at, recheck_at, configure_files_priority_at,
  configure_trackers_at, configure_at,
}
use bitswash.Session.Requests.{Request, serve, Turn, ask, answer, check, take_turn}

-- What a turn relies on: a new address for what is loaded, a priority for each file of what is
-- removed, metadata or a valid handle for what is configured, indices in range before a move to the
-- bottom, and an index for all but the last torrent before an alert.
abbrev pub Admits : World → Turn → Session → Type 0
Admits w (ask (Request.load r c u)) s = IsFresh r s
Admits w (ask (Request.remove z deletedata)) s =
    (r : ℕ) → get_torrent z s ≡ some r → HasPriorities s r
Admits w (ask (Request.move_bottom r)) s = IndicesInRange s
Admits w (ask (Request.configure_files z)) s =
    (r : ℕ) → get_torrent z s ≡ some r → (i : TorrentInfo) × ((s.store r).info ≡ some i)
Admits w (ask (Request.configure_all z)) s =
    (r : ℕ)
    → get_torrent z s ≡ some r
    → (n : ℕ) × ((s.store r).handle ≡ some n) × (w.handle_is_valid s.history n ≡ true)
Admits w (answer a) s = ButLast s s.torrent_queue
Admits w _ s = Unit {0}

at_index-Keeps :
    (f : ℕ → Session → Session) (z : ℤ) (s : Session)
    → ((r : ℕ) → Keeps s (f r s))
    → Keeps s (at_index f z s)
unfolding at_index
at_index-Keeps f z s k = go (get_torrent z s)
  where
    go : (o : Option ℕ) → Keeps s (elim o [ none ↦ s | some r ↦ f r s ])
    go none = Keeps-refl
    go (some r) = k r

try_at_index-IsIndexed :
    (f : ℕ → Session → Option Session) (z : ℤ) {s : Session}
    → IsIndexed s
    → ((r : ℕ) → get_torrent z s ≡ some r → Returns IsIndexed (f r s))
    → Returns IsIndexed (try_at_index f z s)
unfolding try_at_index
try_at_index-IsIndexed f z {s} v k = elim (Option-cases (get_torrent z s)) [
  | inl e ↦ rw (e, try_at_index) (returns v)
  | inr (r, e) ↦ rw (e, try_at_index) (k r e)
]

if_valid-Keeps :
    (f : ℕ → Session → Session) (r : ℕ) (s : Session) → Keeps s (f r s) → Keeps s (if_valid f r s)
unfolding if_valid
if_valid-Keeps f r s k = Keeps-if (s.store r).isvalid k Keeps-refl

remove_torrent-IsIndexed :
    (w : World) (deletedata : Bool) (r : ℕ) {s : Session}
    → IsIndexed s
    → HasPriorities s r
    → Returns IsIndexed (remove_torrent w deletedata r s)
unfolding remove_torrent
remove_torrent-IsIndexed w deletedata r {s} v h =
    elim (Option-cases (find_torrent_by_hash (s.store r).hash s)) [
      | inl e ↦ rw (e, remove_torrent) (returns v)
      | inr (i, e) ↦ Returns-map (remove_torrent-Removed w deletedata r i v e h) (λ t k. k.index)
    ]

move_up_at-IsIndexed :
    (w : World) (z : ℤ) {s : Session} → IsIndexed s → Returns IsIndexed (move_up_at w z s)
unfolding move_up_at
move_up_at-IsIndexed w (pos zero) v = returns v
move_up_at-IsIndexed w (pos (suc i)) v =
    try_at_index-IsIndexed _ (pos (suc i)) v (λ r e. move_torrent_up-IsIndexed w r v)
move_up_at-IsIndexed w (negsuc i) v =
    try_at_index-IsIndexed _ (negsuc i) v (λ r e. move_torrent_up-IsIndexed w r v)

serve-IsIndexed :
    (w : World) (q : Request) {s : Session}
    → IsIndexed s
    → Admits w (ask q) s
    → Returns IsIndexed (serve w q s)
unfolding serve remove_at start_at stop_at queue_at pause_at move_down_at reannounce_at recheck_at
    configure_files_priority_at configure_trackers_at configure_at
serve-IsIndexed w (Request.add r) v a = returns (add_torrent-IsIndexed w r v)
serve-IsIndexed w (Request.load r c u) v a = returns (load_magnet_uri-IsIndexed w r c u v a)
serve-IsIndexed w (Request.merge r i) {s} v a =
    returns (Keeps-IsIndexed (Logs-Keeps (merge_torrent-Logs w r i s)) v)
serve-IsIndexed w (Request.merge_magnet r ts us) {s} v a =
    returns (Keeps-IsIndexed (Logs-Keeps (merge_magnet_uri-Logs w r ts us s)) v)
serve-IsIndexed w (Request.remove z deletedata) v a =
    try_at_index-IsIndexed _ z v (λ r e. remove_torrent-IsIndexed w deletedata r v (a r e))
serve-IsIndexed w (Request.start z force) {s} v a = returns (
    Keeps-IsIndexed
      (at_index-Keeps _ z s (λ r. if_valid-Keeps _ r s (start_torrent-Local w force r s).keeps)) v)
serve-IsIndexed w (Request.stop z) {s} v a =
    returns (Keeps-IsIndexed (at_index-Keeps _ z s (λ r. (stop_torrent-Local w r s).keeps)) v)
serve-IsIndexed w (Request.queue z) {s} v a = returns (
    Keeps-IsIndexed
      (at_index-Keeps _ z s (λ r. if_valid-Keeps _ r s (queue_torrent-Local w r s).keeps)) v)
serve-IsIndexed w (Request.pause z) {s} v a =
    returns (Keeps-IsIndexed (at_index-Keeps _ z s (λ r. (pause_torrent-Local w r s).keeps)) v)
serve-IsIndexed w (Request.reannounce z) {s} v a =
    returns (Keeps-IsIndexed (at_index-Keeps _ z s (λ r. (reannounce_torrent-Local w r s).keeps)) v)
serve-IsIndexed w (Request.recheck z) {s} v a =
    returns (Keeps-IsIndexed (at_index-Keeps _ z s (λ r. (recheck_torrent-Local w r s).keeps)) v)
serve-IsIndexed w (Request.move_up z) v a = move_up_at-IsIndexed w z v
serve-IsIndexed w (Request.move_down z) {s} v a =
    Returns-if (cannot_move_down z (length s.torrent_queue)) (returns v)
      (λ _. try_at_index-IsIndexed _ z v (λ r e. move_torrent_down-IsIndexed w r v))
serve-IsIndexed w (Request.move_top r) v a = move_torrent_top-IsIndexed w r v
serve-IsIndexed w (Request.move_bottom r) v a = move_torrent_bottom-IsIndexed w r v a
serve-IsIndexed w (Request.configure_files z) {s} v a = try_at_index-IsIndexed _ z v λ r e.
    let (i, d) = a r e in
    rw d (returns (Keeps-IsIndexed (configure_files_priority-Local w i r s).keeps v))
serve-IsIndexed w (Request.configure_tracker_list z) {s} v a =
    returns (Keeps-IsIndexed (at_index-Keeps _ z s (λ r. (configure_trackers-Local w r s).keeps)) v)
serve-IsIndexed w (Request.configure_all z) {s} v a = try_at_index-IsIndexed _ z v λ r e.
    let (n, d, valid) = a r e in
    rw (d, valid) (returns (Keeps-IsIndexed (configure_torrent-Local w n r s).keeps v))

take_turn-IsIndexed :
    (w : World) (t : Turn) {s : Session}
    → IsIndexed s
    → Admits w t s
    → Returns IsIndexed (take_turn w t s)
unfolding take_turn
take_turn-IsIndexed w (ask q) v a = serve-IsIndexed w q v a
take_turn-IsIndexed w (answer x) v a = handle_alert-IsIndexed w x v a
take_turn-IsIndexed w check {s} v a = returns (check_queue_item-IsIndexed w s v)

-- The sessions that turns reach from `s`, each on what it relies on.
pub data Reached (w : World) (s : Session) : Session → Type 0 where
  begin : Reached w s s
  turn :
      {u v : Session} (t : Turn)
      → Reached w s u
      → Admits w t u
      → take_turn w t u ≡ some v
      → Reached w s v

Reached-IsIndexed : (w : World) (s u : Session) → IsIndexed s → Reached w s u → IsIndexed u
Reached-IsIndexed w s u v (Reached.begin) = v
Reached-IsIndexed w s u v (Reached.turn {u = x} t r a e) =
    Returns-value u (take_turn-IsIndexed w t (Reached-IsIndexed w s x v r) a) e

-- If the map of the queue is right at first, then after any sequence of requests of the user
-- interface, alerts and passes of the scheduler, in any order, it is right, and the next turn
-- accesses nothing out of range and leaves it right. Each turn relies on what `Admits` says of
-- the session that it finds: a new address for what is loaded, priorities for the files of what
-- is removed, metadata or a valid handle for what is configured, indices in range before a move
-- to the bottom, and an index for all but the last torrent before an alert.
pub Reached-take_turn :
    (w : World) (s u : Session) (t : Turn)
    → IsIndexed s
    → Reached w s u
    → Admits w t u
    → IsIndexed u × Returns IsIndexed (take_turn w t u)
Reached-take_turn w s u t v r a =
    let x = Reached-IsIndexed w s u v r in (x, take_turn-IsIndexed w t x a)
