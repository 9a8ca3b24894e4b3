-- ===== src/Session/Vector.antt =====
-- Accesses to `m_torrent_queue`. One out of range is undefined in the source, and a fault here.
use bitswash.Prelude.{
  ℕ, zero, suc, pos, ◌+◌, Option, none, some, ltb, leb, if◌then◌else◌, length, get_elem?, set,
  erase_at, insert_at, ◌|>◌,
}
use bitswash.Session.{Session, set_queue, set_running, set_qindex, save}

-- `m_torrent_queue[i] = torrent`
unfoldable pub write_queue : ℕ → ℕ → Session → Option Session
write_queue i r s =
    let q = s.torrent_queue in if ltb i (length q) then some (set_queue (set q i r) s) else none

-- `m_torrent_queue.erase(m_torrent_queue.begin() + i)`
unfoldable pub erase_queue : ℕ → Session → Option Session
erase_queue i s =
    let q = s.torrent_queue in if ltb i (length q) then some (set_queue (erase_at q i) s) else none

-- `m_torrent_queue.insert(m_torrent_queue.begin() + i, torrent)`
unfoldable pub insert_queue : ℕ → ℕ → Session → Option Session
insert_queue i r s =
    let q = s.torrent_queue in
    if leb i (length q) then some (set_queue (insert_at q i r) s) else none

-- A loop over `n` positions of the queue from `i` on.
unfoldable pub for_queue : (ℕ → ℕ → Session → Session) → ℕ → ℕ → Session → Option Session
for_queue body zero i s = some s
for_queue body (suc n) i s = elim (get_elem? s.torrent_queue i) [
  | none ↦ none
  | some r ↦ for_queue body n (i + 1) (body i r s)
]

-- One round of the loop that moves end in: `SetQIndex(i)`, `Save`, and the new map entry.
unfoldable pub renumber_at : ℕ → ℕ → Session → Session
renumber_at i r s =
    let s1 = s |> set_qindex r (pos i) |> save r in set_running (s1.store r).hash i s1

unfoldable pub renumber : ℕ → ℕ → Session → Option Session
renumber = for_queue renumber_at

-- The loop of `RemoveTorrent` sets map entries only.
unfoldable pub reindex_at : ℕ → ℕ → Session → Session
reindex_at i r s = set_running (s.store r).hash i s

unfoldable pub reindex : ℕ → ℕ → Session → Option Session
reindex = for_queue reindex_at
