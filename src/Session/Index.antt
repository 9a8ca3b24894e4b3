-- ===== src/Session/Index.antt =====
-- The index of the queue: `m_running_torrent_map` names, for each hash, the position of its torrent
-- in `m_torrent_queue`, and nothing else.
pub mod Exchange
pub mod Loop
pub mod Moves
pub mod Operations
pub mod Membership
pub mod Removal
pub mod Arrival
pub mod Alerts
pub mod Duplication
pub mod Numbering
pub mod Loading
use bitswash.Prelude.{ℕ, none, some, ◌≡◌, sym, ap, ◌∙◌, arith, get_elem?}
use bitswash.Session.{Session, get_torrent_by_hash, find_torrent_by_hash}
use bitswash.Session.Frame.{Keeps}

pub record IsIndexed (s : Session) : Type 0 where
  pub indexed :
      (i r : ℕ)
      → get_elem? s.torrent_queue i ≡ some r
      → s.running_torrent_map (s.store r).hash ≡ some i
  pub found :
      (h i : ℕ)
      → s.running_torrent_map h ≡ some i
      → (r : ℕ) × (get_elem? s.torrent_queue i ≡ some r) × ((s.store r).hash ≡ h)

pub Keeps-IsIndexed : {s t : Session} → Keeps s t → IsIndexed s → IsIndexed t
Keeps-IsIndexed {s} {t} k v = record {
  indexed =
      λ i r e. rw (k.map, k.hashes r) (v.indexed i r (ap (λ q. get_elem? q i) (sym k.queue) ∙ e));
  found = λ h i e. go h i (v.found h i (ap (λ m. m h) (sym k.map) ∙ e));
}
  where
    go :
        (h i : ℕ)
        → ((r : ℕ) × (get_elem? s.torrent_queue i ≡ some r) × ((s.store r).hash ≡ h))
        → (r : ℕ) × (get_elem? t.torrent_queue i ≡ some r) × ((t.store r).hash ≡ h)
    go h i (r, e, d) = (r, ap (λ q. get_elem? q i) k.queue ∙ e, k.hashes r ∙ d)

-- No hash stands at two positions.
pub IsIndexed-distinct :
    {s : Session} (i j r q : ℕ)
    → IsIndexed s
    → get_elem? s.torrent_queue i ≡ some r
    → get_elem? s.torrent_queue j ≡ some q
    → (s.store r).hash ≡ (s.store q).hash
    → i ≡ j
IsIndexed-distinct {s} i j r q v e d h =
    ground (arith, v.indexed i r e, v.indexed j q d, ap s.running_torrent_map h)

-- If the map of the queue is right and has the hash, `GetTorrent` by hash reads in range and
-- returns a torrent with that hash.
pub get_torrent-some :
    {s : Session} (h i : ℕ)
    → IsIndexed s
    → find_torrent_by_hash h s ≡ some i
    → (r : ℕ) × (get_torrent_by_hash h s ≡ some r) × ((s.store r).hash ≡ h)
unfolding get_torrent_by_hash find_torrent_by_hash
get_torrent-some {s} h i v e = go (v.found h i e)
  where
    go :
        ((r : ℕ) × (get_elem? s.torrent_queue i ≡ some r) × ((s.store r).hash ≡ h))
        → (r : ℕ) × ((elim (s.running_torrent_map h) [
          | none ↦ none
          | some j ↦ get_elem? s.torrent_queue j
        ])
            ≡ some r)
          × ((s.store r).hash ≡ h)
    go (r, d, f) = (r, rw e d, f)
