-- ===== src/Session/ByIndex.antt =====
-- The overloads of src/bittorrentsession.cpp that take a position in the queue. A null dereference
-- or an invalid handle, which throws, is `none`, as an access out of range is.
use bitswash.Prelude.{
  true, ◌||◌, ℕ, zero, suc, ℤ, pos, negsuc, String, Option, none, some, Bool, false, not, leb,
  if◌then◌else◌, length, ◌==◌,
}
use bitswash.Torrent.{has_info}
use bitswash.LibTorrent.{World}
use bitswash.Session.{Session, get_torrent}
use bitswash.Session.Adding.{is_empty}
use bitswash.Session.Stopping.{stop_torrent, queue_torrent, pause_torrent}
use bitswash.Session.Configuring.{configure_files_priority, configure_trackers, configure_torrent}
use bitswash.Session.Starting.{start_torrent, recheck_torrent, reannounce_torrent}
use bitswash.Session.Moving.{move_torrent_up, move_torrent_down}
use bitswash.Session.Membership.{remove_torrent}

-- `GetTorrent(idx)`, then the operation if there is a torrent.
unfoldable pub at_index : (ℕ → Session → Session) → ℤ → Session → Session
at_index f z s = elim (get_torrent z s) [ none ↦ s | some r ↦ f r s ]

-- The same, for an operation that may be a fault.
unfoldable pub try_at_index : (ℕ → Session → Option Session) → ℤ → Session → Option Session
try_at_index f z s = elim (get_torrent z s) [ none ↦ some s | some r ↦ f r s ]

-- `torrent && torrent->isvalid`
unfoldable pub if_valid : (ℕ → Session → Session) → ℕ → Session → Session
if_valid f r s = if (s.store r).isvalid then f r s else s

unfoldable pub remove_at : World → ℤ → Bool → Session → Option Session
remove_at w z deletedata = try_at_index (remove_torrent w deletedata) z

unfoldable pub start_at : World → ℤ → Bool → Session → Session
start_at w z force = at_index (if_valid (start_torrent w force)) z

unfoldable pub stop_at : World → ℤ → Session → Session
stop_at w = at_index (stop_torrent w)

unfoldable pub queue_at : World → ℤ → Session → Session
queue_at w = at_index (if_valid (queue_torrent w))

unfoldable pub pause_at : World → ℤ → Session → Session
pause_at w = at_index (pause_torrent w)

unfoldable pub move_up_at : World → ℤ → Session → Option Session
move_up_at w (pos zero) s = some s
move_up_at w (pos (suc i)) s = try_at_index (move_torrent_up w) (pos (suc i)) s
move_up_at w (negsuc i) s = try_at_index (move_torrent_up w) (negsuc i) s

-- `idx >= m_torrent_queue.size() - 1` compares unsigned numbers: a negative index is above every
-- size, and the empty queue has no last position.
unfoldable pub cannot_move_down : ℤ → ℕ → Bool
cannot_move_down (negsuc zero) n = true
cannot_move_down (negsuc (suc i)) n = not (n == 0)
cannot_move_down (pos i) zero = false
cannot_move_down (pos i) (suc n) = leb n i

unfoldable pub move_down_at : World → ℤ → Session → Option Session
move_down_at w z s =
    if cannot_move_down z (length s.torrent_queue)
    then some s
    else try_at_index (move_torrent_down w) z s

unfoldable pub reannounce_at : World → ℤ → Session → Session
reannounce_at w = at_index (reannounce_torrent w)

unfoldable pub recheck_at : World → ℤ → Session → Session
recheck_at w = at_index (recheck_torrent w)

unfoldable pub configure_files_priority_at : World → ℤ → Session → Option Session
configure_files_priority_at w =
    try_at_index λ r s. elim (s.store r).info [
      | none ↦ none
      | some i ↦ some (configure_files_priority w i r s)
    ]

unfoldable pub configure_trackers_at : World → ℤ → Session → Session
configure_trackers_at w = at_index (configure_trackers w)

unfoldable pub configure_at : World → ℤ → Session → Option Session
configure_at w = try_at_index λ r s. elim (s.store r).handle [
  | none ↦ if has_info (s.store r) then none else some s
  | some n ↦
      if w.handle_is_valid s.history n || not (has_info (s.store r))
      then some (configure_torrent w n r s)
      else none
]

unfoldable pub get_magnet_uri : ℤ → Session → Option String
get_magnet_uri z s = elim (get_torrent z s) [
  | none ↦ none
  | some r ↦
      let uri = (s.store r).config.magnet_uri in
      if (s.store r).isvalid then (if is_empty uri then none else some uri) else none
]
