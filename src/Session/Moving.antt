-- ===== src/Session/Moving.antt =====
-- `MoveTorrentUp`, `MoveTorrentDown`, `MoveTorrentTop` and `MoveTorrentBottom` of
-- src/bittorrentsession.cpp. `none` is an access out of the queue's range.
use bitswash.Prelude.{
  ℕ, zero, suc, ℤ, pos, negsuc, ◌-◌, List, [], ◌∷◌, Option, none, some, Bool, true, false, ltb,
  ◌==◌, if◌then◌else◌, length, get_elem?, drop, ◌>>=◌, ◌|>◌,
}
use bitswash.LibTorrent.{
  World, queue_position_up, queue_position_down, queue_position_top, queue_position_bottom,
}
use bitswash.Session.{Session, emit, set_qindex, save, set_running, find_torrent_by_hash}
use bitswash.Session.Stopping.{with_handle}
use bitswash.Session.Vector.{write_queue, erase_queue, insert_queue, renumber}

abbrev pub qindex_of : Session → ℕ → ℤ
qindex_of s r = (s.store r).config.qindex

-- `x < 0`
abbrev pub is_negative : ℤ → Bool
is_negative (pos n) = false
is_negative (negsuc n) = true

-- The torrent at `r` and `other` trade their indices, and both files are written.
unfoldable pub trade_qindex : World → (ℕ → Session → Session) → ℕ → ℕ → Session → Session
trade_qindex w notify r other s =
    s
    |> set_qindex r (qindex_of s other)
    |> save r
    |> with_handle w r notify
    |> set_qindex other (qindex_of s r)
    |> save other

-- The two queue entries and map entries, `r` going to position `to` and `other` to `from`.
unfoldable pub place : ℕ → ℕ → ℕ → ℕ → Session → Option Session
place r other from to s = do
  s1 ← write_queue to r s
  s2 ← write_queue from other s1
  some (s2 |> set_running (s2.store r).hash to |> set_running (s2.store other).hash from)

unfoldable pub exchange : World → (ℕ → Session → Session) → ℕ → ℕ → ℕ → ℕ → Session → Option Session
exchange w notify r other from to s = place r other from to (trade_qindex w notify r other s)

unfoldable pub move_up_from : World → ℕ → ℕ → Session → Option Session
move_up_from w r zero s = some s
move_up_from w r (suc i) s =
    if is_negative (qindex_of s r)
    then some s
    else (get_elem? s.torrent_queue i >>= λ previous.
        exchange w (λ n. emit (queue_position_up n)) r previous (suc i) i s)

unfoldable pub move_torrent_up : World → ℕ → Session → Option Session
move_torrent_up w r s = elim (find_torrent_by_hash (s.store r).hash s) [
  | none ↦ some s
  | some i ↦ move_up_from w r i s
]

unfoldable pub move_down_from : World → ℕ → ℕ → Session → Option Session
move_down_from w r i s =
    if suc i == length s.torrent_queue
    then some s
    else if is_negative (qindex_of s r)
    then some s
    else (get_elem? s.torrent_queue (suc i) >>= λ next.
        if is_negative (qindex_of s next)
        then some s
        else exchange w (λ n. emit (queue_position_down n)) r next i (suc i) s)

unfoldable pub move_torrent_down : World → ℕ → Session → Option Session
move_torrent_down w r s = elim (find_torrent_by_hash (s.store r).hash s) [
  | none ↦ some s
  | some i ↦ move_down_from w r i s
]

-- Takes the torrent out at `from`, puts it in at `to`, and renumbers `n` positions from `start`.
unfoldable pub relocate : ℕ → ℕ → ℕ → ℕ → ℕ → Session → Option Session
relocate r from to start n s = do
  s1 ← erase_queue from s
  s2 ← insert_queue to r s1
  renumber n start s2

unfoldable pub move_top_from : World → ℕ → ℕ → Session → Option Session
move_top_from w r zero s = some s
move_top_from w r (suc i) s =
    if is_negative (qindex_of s r)
    then some s
    else (relocate r (suc i) 0 0 (suc (suc i)) s >>= λ s1.
        some (with_handle w r (λ n. emit (queue_position_top n)) s1))

unfoldable pub move_torrent_top : World → ℕ → Session → Option Session
move_torrent_top w r s = elim (find_torrent_by_hash (s.store r).hash s) [
  | none ↦ some s
  | some i ↦ move_top_from w r i s
]

-- `bottom_qindex`: the last index before the first torrent with a negative one.
unfoldable pub bottom_qindex : Session → ℤ → List ℕ → ℤ
bottom_qindex s acc [] = acc
bottom_qindex s acc (r ∷ rs) =
    let rest = bottom_qindex s (qindex_of s r) rs in
    if is_negative (qindex_of s r) then acc else rest

-- Moves to the position that the index `bottom` names, if that is below the torrent's own.
unfoldable pub move_to_bottom : ℕ → ℕ → ℤ → Session → Option Session
move_to_bottom r i (negsuc b) s = some s
move_to_bottom r i (pos b) s = if ltb i b then relocate r i b i (suc b - i) s else some s

unfoldable pub move_bottom_from : World → ℕ → ℕ → Session → Option Session
move_bottom_from w r i s =
    if suc i == length s.torrent_queue
    then some s
    else if is_negative (qindex_of s r)
    then some s
    else (move_to_bottom r i (bottom_qindex s (negsuc 0) (drop (suc i) s.torrent_queue)) s >>= λ s1.
        some (with_handle w r (λ n. emit (queue_position_bottom n)) s1))

unfoldable pub move_torrent_bottom : World → ℕ → Session → Option Session
move_torrent_bottom w r s = elim (find_torrent_by_hash (s.store r).hash s) [
  | none ↦ some s
  | some i ↦ move_bottom_from w r i s
]
