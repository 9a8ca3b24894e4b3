-- ===== src/Session/Index/Removal.antt =====
-- `RemoveTorrent`: what it takes out, and that the index of the queue stays right.
use bitswash.Prelude.{
  subst, if◌then◌else◌, ◌≤◌, ◌≢◌, ℕ, suc, ◌+◌, ◌-◌, ◌≤◌, ◌<◌, none, some, ◌≡◌, refl, sym, ap, ◌∙◌,
  arith, ◌≢◌, ◌⊎◌, inl, inr, Bool, true, false, ltb, if◌then◌else◌, length, get_elem?, erase_at,
  Returns, Returns-bind, Returns-both, Returns-map, returns, get_elem?-some, zero, get_elem?-lt,
  get_elem?-erase_at, length-erase_at, Option-cases, Bool-cases, update,
}
use bitswash.Torrent.{TorrentInfo}
use bitswash.LibTorrent.{World}
use bitswash.Session.{
  Session, find_torrent_by_hash, set_queue, set_running, erase_queued, erase_running,
}
use bitswash.Session.Vector.{for_queue, reindex_at, erase_queue, reindex}
use bitswash.Session.Membership.{dequeue, remove_torrent}
use bitswash.Session.Frame.{
  Logs, Logs-refl, Logs-Keeps, ◌⨟◌, drop_handle-Logs, remove_saved_files-Logs, remove_data-Logs,
  announce_removal-Logs, remove_placeholders-Logs, HasPriorities,
}
use bitswash.Session.Index.{IsIndexed, Keeps-IsIndexed, IsIndexed-distinct}
use bitswash.Session.Index.Loop.{IsIndexedOutside, for_queue-IsIndexed, reindex_at-Numbers}

module _ {s : Session} {r0 : ℕ} (r i : ℕ) (v : IsIndexed s)
    (at_i : get_elem? s.torrent_queue i ≡ some r0)
    (same : (s.store r0).hash ≡ (s.store r).hash) where
  -- The state between the erasures and the loop.
  erased : Session
  erased = record s {
    torrent_queue = erase_at s.torrent_queue i;
    running_torrent_map = update s.running_torrent_map (s.store r).hash none;
    queue_torrent_set = update s.queue_torrent_set (s.store r).hash false;
  }

  erased-indexed :
      (j q : ℕ)
      → get_elem? (erase_at s.torrent_queue i) j ≡ some q
      → ((j < i) ⊎ (length (erase_at s.torrent_queue i) ≤ j))
      → update s.running_torrent_map (s.store r).hash none (s.store q).hash ≡ some j
  erased-indexed j q e (inl o) =
      ground
        (arith, get_elem?-erase_at s.torrent_queue i j, v.indexed j q, v.indexed i r0 at_i, same, e)
  erased-indexed j q e (inr o) =
      absurd (omega (arith, get_elem?-lt (erase_at s.torrent_queue i) j q e))

  erased-found :
      (h j : ℕ)
      → update s.running_torrent_map (s.store r).hash none h ≡ some j
      → ((q : ℕ) × ((j < i) ⊎ (length (erase_at s.torrent_queue i) ≤ j))
          × (get_elem? (erase_at s.torrent_queue i) j ≡ some q)
          × ((s.store q).hash ≡ h))
        ⊎ ((k : ℕ) × (q : ℕ) × (i ≤ k)
            × (k < length (erase_at s.torrent_queue i))
            × (get_elem? (erase_at s.torrent_queue i) k ≡ some q)
            × ((s.store q).hash ≡ h))
  erased-found h j e =
      let old : s.running_torrent_map h ≡ some j = ground arith in
      let (q, x, y) = v.found h j old in
      elim (Bool-cases (ltb j i)) [
        | inl l ↦
            inl (q, inl (ground arith), get_elem?-erase_at s.torrent_queue i j ∙ ground arith, y)
        | inr l ↦
            let past : i < j = ground (arith, at_i, same, x, y) in
            let next : suc (j - 1) ≡ j = omega arith in
            inr (
              j - 1,
              q,
              omega arith,
              omega (
                arith,
                get_elem?-lt s.torrent_queue j q x,
                length-erase_at s.torrent_queue i (get_elem?-lt s.torrent_queue i r0 at_i),
              ),
              get_elem?-erase_at s.torrent_queue i (j - 1)
                  ∙ ground (arith, ap (get_elem? s.torrent_queue) next, x),
              y,
            )
      ]

  -- Where the torrent at a position of the shorter queue stood.
  abbrev before : ℕ → ℕ
  before j = if ltb j i then j else suc j

  erased-elem :
      (j : ℕ) → get_elem? (erase_at s.torrent_queue i) j ≡ get_elem? s.torrent_queue (before j)
  erased-elem j = ground (arith, get_elem?-erase_at s.torrent_queue i j)

  before-injective : (j k : ℕ) → before j ≡ before k → j ≡ k
  before-injective j k e = ground arith

  erased-IsIndexedOutside : IsIndexedOutside i (length (erase_at s.torrent_queue i)) erased
  unfolding erased
  erased-IsIndexedOutside = record {
    indexed = erased-indexed;
    found = erased-found;
    distinct = λ j k q p e f h.
        before-injective j k
          (IsIndexed-distinct _ _ q p v (sym (erased-elem j) ∙ e) (sym (erased-elem k) ∙ f) h);
  }

  dequeue-eq : dequeue r i s ≡ reindex (length (erase_at s.torrent_queue i) - i) i erased
  unfolding dequeue erased erase_queued erase_running erase_queue set_queue
  dequeue-eq =
      let inside : ltb i (length s.torrent_queue) ≡ true =
        ground (arith, get_elem?-lt s.torrent_queue i r0 at_i) in
      rw inside refl

  dequeue-IsIndexed : Returns IsIndexed (dequeue r i s)
  unfolding reindex erased
  dequeue-IsIndexed =
      let m = length (erase_at s.torrent_queue i) in
      let l = length-erase_at s.torrent_queue i (get_elem?-lt s.torrent_queue i r0 at_i) in
      let fits : i + (m - i) ≡ m = omega (arith, get_elem?-lt s.torrent_queue i r0 at_i) in
      rw (dequeue-eq, reindex)
        (for_queue-IsIndexed reindex_at-Numbers (m - i) i (omega arith)
          (rw fits erased-IsIndexedOutside))

-- The loop of `RemoveTorrent` changes only map entries.
abbrev SameQueue : Session → Session → Type 0
SameQueue s t = (t.store ≡ s.store) × (t.torrent_queue ≡ s.torrent_queue)

reindex-SameQueue :
    (n i : ℕ) (s : Session)
    → i + n ≤ length s.torrent_queue
    → Returns (SameQueue s) (for_queue reindex_at n i s)
unfolding for_queue reindex_at set_running
reindex-SameQueue zero i s b = returns (refl, refl)
reindex-SameQueue (suc n) i s b =
    let (r, e) = get_elem?-some s.torrent_queue i (omega arith) in
    rw (e, for_queue) (reindex-SameQueue n (i + 1) (reindex_at i r s) (omega arith))

-- What is left of a session once the torrent with the hash `h` at position `i` is gone.
pub record Removed (i h : ℕ) (s t : Session) : Type 0 where
  pub index : IsIndexed t
  pub queue : t.torrent_queue ≡ erase_at s.torrent_queue i
  pub store : t.store ≡ s.store
  pub gone : t.running_torrent_map h ≡ none

Logs-Removed : {i h : ℕ} {s t u : Session} → Logs t u → Removed i h s t → Removed i h s u
Logs-Removed {i} {h} k v = record {
  index = Keeps-IsIndexed (Logs-Keeps k) v.index;
  queue = k.queue ∙ v.queue;
  store = k.store ∙ v.store;
  gone = ap (λ m. m h) k.map ∙ v.gone;
}

module _ {s : Session} {r0 : ℕ} (r i : ℕ) (v : IsIndexed s)
    (at_i : get_elem? s.torrent_queue i ≡ some r0)
    (same : (s.store r0).hash ≡ (s.store r).hash) where
  -- No torrent of the shorter queue has the hash.
  not_found :
      {t : Session}
      → IsIndexed t
      → t.store ≡ s.store
      → t.torrent_queue ≡ erase_at s.torrent_queue i
      → t.running_torrent_map (s.store r).hash ≡ none
  not_found {t} u e f = elim (Option-cases (t.running_torrent_map (s.store r).hash)) [
    | inl x ↦ x
    | inr (j, x) ↦
        let (q, y, z) = u.found _ j x in
        let old : get_elem? s.torrent_queue (before r i v at_i same j) ≡ some q =
          sym (erased-elem r i v at_i same j) ∙ ap (λ xs. get_elem? xs j) (sym f) ∙ y in
        let h : (s.store q).hash ≡ (s.store r).hash = ap (λ m. (m q).hash) (sym e) ∙ z in
        absurd
          (past j (IsIndexed-distinct (before r i v at_i same j) i q r0 v old at_i (h ∙ sym same)))
  ]
    where
      past : (j : ℕ) → before r i v at_i same j ≢ i
      past j d = ground arith

  dequeue-Removed : Returns (Removed i (s.store r).hash s) (dequeue r i s)
  unfolding reindex erased
  dequeue-Removed =
      let m = length (erase_at s.torrent_queue i) in
      let l = length-erase_at s.torrent_queue i (get_elem?-lt s.torrent_queue i r0 at_i) in
      let frame : Returns (SameQueue (erased r i v at_i same)) (dequeue r i s) =
        rw (dequeue-eq r i v at_i same, reindex)
          (reindex-SameQueue (m - i) i (erased r i v at_i same)
            (omega (arith, get_elem?-lt s.torrent_queue i r0 at_i))) in
      Returns-map (Returns-both (dequeue-IsIndexed r i v at_i same) frame)
        λ t (u, f). record { index = u; queue = f.1; store = f.0; gone = not_found u f.0 f.1 }

-- If the map names for each hash the position of its torrent and nothing else, the hash of the
-- torrent at `r` stands at position `i`, and the torrent has a priority for each file of its
-- valid metadata, then `RemoveTorrent` accesses nothing out of range, takes exactly the entry at
-- `i` out of the queue, drops the hash from the map, changes no torrent, and leaves the map
-- right, with or without the removal of the data and whatever the file system and libtorrent
-- answer.
pub remove_torrent-Removed :
    (w : World) (deletedata : Bool) (r i : ℕ) {s : Session}
    → IsIndexed s
    → find_torrent_by_hash (s.store r).hash s ≡ some i
    → HasPriorities s r
    → Returns (Removed i (s.store r).hash s) (remove_torrent w deletedata r s)
unfolding remove_torrent find_torrent_by_hash
remove_torrent-Removed w deletedata r i {s} v e h =
    let (q, x, y) = v.found _ i e in
    rw (e, remove_torrent)
      (Returns-bind (dequeue-Removed r i v x y) λ s1 d.
        let k = drop_handle-Logs w deletedata r s1 ⨟ remove_saved_files-Logs w (s.store r).hash _ in
        let l = k ⨟ either deletedata (remove_data-Logs w r _) in
        Returns-bind
          (remove_placeholders-Logs w r _ (
            subst
              (λ st.
                (i : TorrentInfo)
                → (st r).info ≡ some i
                → i.info_is_valid ≡ true
                → length i.files ≤ length (st r).config.files_priority)
              (sym (l.store ∙ d.store)) h))
          λ s3 m. returns (Logs-Removed (l ⨟ m ⨟ announce_removal-Logs r s3) d))
  where
    either : {t u : Session} (b : Bool) → Logs t u → Logs t (if b then u else t)
    either true k = k
    either false k = Logs-refl
