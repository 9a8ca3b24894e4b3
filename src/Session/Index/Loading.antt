-- ===== src/Session/Index/Loading.antt =====
-- Restoring the queue at start builds the index anew, and loading a magnet URI keeps it.
use bitswash.Prelude.{
  ℕ, pos, ◌≤◌, List, [], ◌∷◌, none, some, ◌≡◌, ◌≢◌, ap, ◌∙◌, inl, inr, arith, ◌==◌, ◌||◌,
  if◌then◌else◌, Bool, true, false, Bool-cases, Option-cases, length, get_elem?, get_elem?-lt,
  Returns, returns, Returns-some,
}
use bitswash.Torrent.{Torrent, TorrentConfig, FileEntry}
use bitswash.LibTorrent.{World}
use bitswash.Session.{Session, set_torrent, set_qindex, set_running, find_torrent_by_hash}
use bitswash.Session.Adding.{add_magnet_uri_to_session}
use bitswash.Session.Membership.{enqueue}
use bitswash.Session.Loading.{
  number_at, number_queue, add_all, restore_queue, MagnetUri, magnet_torrent, load_magnet_uri,
  selected_size, total_size, selected_of,
}
use bitswash.Session.Frame.{
  Keeps, Keeps-refl, ◌▸◌, modify_config-Keeps, add_torrent_to_session-Local,
  add_magnet_uri_to_session-Local,
}
use bitswash.Session.Index.{IsIndexed, Keeps-IsIndexed}
use bitswash.Session.Index.Loop.{Numbers, for_queue-IsIndexed}
use bitswash.Session.Index.Membership.{enqueue-IsIndexed}

number_at-Numbers : Numbers number_at
unfolding number_at set_running set_qindex
number_at-Numbers = record {
  queue = λ i r s. (keeps i r s).queue;
  hashes = λ i r s q. (keeps i r s).hashes q;
  map = λ i r s h. ground (arith, (keeps i r s).hashes r, ap (λ m. m h) (keeps i r s).map);
}
  where
    keeps : (i r : ℕ) (s : Session) → Keeps s (set_qindex r (pos i) s)
    keeps i r s = modify_config-Keeps r _ s

-- No two positions of `q` hold torrents of one hash.
abbrev pub AreDistinct : List ℕ → Session → Type 0
AreDistinct q s =
    (i j r p : ℕ)
    → get_elem? q i ≡ some r
    → get_elem? q j ≡ some p
    → (s.store r).hash ≡ (s.store p).hash
    → i ≡ j

number_queue-IsIndexed :
    (q : List ℕ) (s : Session) → AreDistinct q s → Returns IsIndexed (number_queue q s)
unfolding number_queue
number_queue-IsIndexed q s d =
    for_queue-IsIndexed number_at-Numbers (length q) 0 (omega arith) (record {
      indexed = λ j r e o. absurd (ground (arith, get_elem?-lt q j r e, o));
      found = λ h j e. absurd (ground (arith, e));
      distinct = λ i j r p. d i j r p;
    })

add_all-Keeps : (w : World) (rs : List ℕ) (s : Session) → Keeps s (add_all w rs s)
unfolding add_all
add_all-Keeps w [] s = Keeps-refl
add_all-Keeps w (r ∷ rs) s = (add_torrent_to_session-Local w r s).keeps ▸ add_all-Keeps w rs _

-- For any queue in which no two positions hold torrents of one hash, in whatever order it was
-- sorted, the end of `ScanTorrentsDirectory` accesses nothing out of range and builds the map
-- right from nothing, and starting torrents leaves it right.
pub restore_queue-IsIndexed :
    (w : World) (q : List ℕ) (s : Session)
    → AreDistinct q s
    → Returns IsIndexed (restore_queue w q s)
unfolding restore_queue
restore_queue-IsIndexed w q s d =
    let (t, e, v) = Returns-some (number_queue-IsIndexed q s d) in
    rw (e, restore_queue) (returns (Keeps-IsIndexed (add_all-Keeps w _ t) v))

-- The address `r` is not in the queue.
abbrev pub IsFresh : ℕ → Session → Type 0
IsFresh r s = (i q : ℕ) → get_elem? s.torrent_queue i ≡ some q → r ≢ q

set_torrent-IsIndexed :
    (r : ℕ) (t : Torrent) {s : Session} → IsFresh r s → IsIndexed s → IsIndexed (set_torrent r t s)
unfolding set_torrent
set_torrent-IsIndexed r t {s} f v = record {
  indexed = λ i q e. ground (arith, f i q e, v.indexed i q e);
  found = λ h i e. let (q, d, x) = v.found h i e in (q, d, ground (arith, f i q d, x));
}

set_torrent-hash : (r : ℕ) (t : Torrent) (s : Session) → ((set_torrent r t s).store r).hash ≡ t.hash
unfolding set_torrent
set_torrent-hash r t s = ground arith

-- If the map of the queue is right and the new torrent's address is not in the queue,
-- `LoadMagnetUri` leaves the map right, on every branch.
pub load_magnet_uri-IsIndexed :
    (w : World) (r : ℕ) (c : TorrentConfig) (u : MagnetUri) {s : Session}
    → IsIndexed s
    → IsFresh r s
    → IsIndexed (load_magnet_uri w r c u s)
unfolding load_magnet_uri find_torrent_by_hash set_torrent magnet_torrent
load_magnet_uri-IsIndexed w r c u {s} v f = elim (Option-cases (s.running_torrent_map u.uri_hash)) [
  | inr (i, e) ↦ rw (e, load_magnet_uri, find_torrent_by_hash) v
  | inl e ↦
      rw (e, load_magnet_uri, find_torrent_by_hash)
        (either (s.queue_torrent_set u.uri_hash || (u.uri_hash == 0)) v (added e))
]
  where
    either : {t x : Session} (b : Bool) → IsIndexed t → IsIndexed x → IsIndexed (if b then t else x)
    either true k l = k
    either false k l = l

    t : Session
    t = set_torrent r (magnet_torrent w s.config u c) s

    k : Keeps t (add_magnet_uri_to_session w r t)
    k = (add_magnet_uri_to_session-Local w r t).keeps

    hash : (t.store r).hash ≡ u.uri_hash
    hash = set_torrent-hash r (magnet_torrent w s.config u c) s

    added :
        s.running_torrent_map u.uri_hash ≡ none
        → IsIndexed (enqueue r (add_magnet_uri_to_session w r t))
    added e =
        enqueue-IsIndexed r
          (Keeps-IsIndexed k (set_torrent-IsIndexed r (magnet_torrent w s.config u c) f v))
          (ap (λ m. m ((add_magnet_uri_to_session w r t).store r).hash) k.map
            ∙ ap s.running_torrent_map (k.hashes r ∙ hash)
            ∙ e)

selected_size-le : (fs : List FileEntry) (ps : List ℕ) → selected_size fs ps ≤ total_size fs
unfolding selected_size total_size
selected_size-le [] ps = omega arith
selected_size-le (f ∷ fs) [] = omega arith
selected_size-le (f ∷ fs) (p ∷ ps) = ground (arith, selected_size-le fs ps)

-- The size of the selected files is at most that of all files, whatever the number of priorities.
pub selected_of-le : (fs : List FileEntry) (ps : List ℕ) → selected_of fs ps ≤ total_size fs
unfolding selected_of
selected_of-le fs ps = elim (Bool-cases (length ps == length fs)) [
  | inl e ↦ rw e (selected_size-le fs ps)
  | inr e ↦ rw e (omega arith)
]
