-- ===== src/Session/Index/Exchange.antt =====
-- Moving up and down: two neighbours change places, and the index follows.
use bitswash.Prelude.{
  ℕ, ◌<◌, some, ◌≡◌, refl, sym, ◌∙◌, ◌≢◌, arith, inl, inr, true, false, ltb, ◌==◌, if◌then◌else◌,
  length, get_elem?, set, Returns, returns, update, get_elem?-lt, get_elem?-set, length-set,
  Bool-cases,
}
use bitswash.LibTorrent.{World}
use bitswash.Session.{Session, set_running, set_queue, set_qindex}
use bitswash.Session.Vector.{write_queue}
use bitswash.Session.Moving.{trade_qindex, place, exchange}
use bitswash.Session.Frame.{Keeps, ◌▸◌, modify_config-Keeps, save-Keeps, with_handle-Keeps}
use bitswash.Session.Index.{IsIndexed, Keeps-IsIndexed}

-- The queue and the map after an exchange.
unfoldable pub swapped : ℕ → ℕ → ℕ → ℕ → Session → Session
swapped r other from to s = record s {
  torrent_queue = set (set s.torrent_queue to r) from other;
  running_torrent_map =
      update (update s.running_torrent_map (s.store r).hash (some to)) (s.store other).hash
        (some from);
}

module _ {s : Session} {r0 : ℕ} (r other from to : ℕ) (v : IsIndexed s)
    (at_from : get_elem? s.torrent_queue from ≡ some r0)
    (same : (s.store r0).hash ≡ (s.store r).hash)
    (at_to : get_elem? s.torrent_queue to ≡ some other) (apart : from ≢ to) where
  elem :
      (i : ℕ)
      → get_elem? (swapped r other from to s).torrent_queue i ≡ (
          if from == i then some other else if to == i then some r else get_elem? s.torrent_queue i)
  unfolding swapped
  elem i = ground (
    arith,
    get_elem?-set (set s.torrent_queue to r) from other i,
    get_elem?-set s.torrent_queue to r i,
    length-set s.torrent_queue to r,
    get_elem?-lt s.torrent_queue from r0 at_from,
    get_elem?-lt s.torrent_queue to other at_to,
  )

  swapped-indexed :
      (i q : ℕ)
      → get_elem? (swapped r other from to s).torrent_queue i ≡ some q
      → (swapped r other from to s).running_torrent_map (s.store q).hash ≡ some i
  swapped-indexed i q e =
      unfold swapped in
      ground (
        arith,
        sym (elem i) ∙ e,
        v.indexed i q,
        v.indexed from r0 at_from,
        v.indexed to other at_to,
        same,
      )

  swapped-found :
      (h i : ℕ)
      → (swapped r other from to s).running_torrent_map h ≡ some i
      → (q : ℕ) × (get_elem? (swapped r other from to s).torrent_queue i ≡ some q)
        × ((s.store q).hash ≡ h)
  unfolding swapped
  swapped-found h i e = elim (Bool-cases ((s.store other).hash == h)) [
    | inl x ↦ (other, elem i ∙ ground arith, ground arith)
    | inr x ↦ elim (Bool-cases ((s.store r).hash == h)) [
      | inl y ↦ (r, elem i ∙ ground arith, ground arith)
      | inr y ↦ kept x y (v.found h i (ground arith))
    ]
  ]
    where
      kept :
          ((s.store other).hash == h) ≡ false
          → ((s.store r).hash == h) ≡ false
          → ((q : ℕ) × (get_elem? s.torrent_queue i ≡ some q) × ((s.store q).hash ≡ h))
          → (q : ℕ) × (get_elem? (swapped r other from to s).torrent_queue i ≡ some q)
            × ((s.store q).hash ≡ h)
      kept x y (q, d, f) = (q, elem i ∙ ground arith, f)

  pub swapped-IsIndexed : IsIndexed (swapped r other from to s)
  unfolding swapped
  swapped-IsIndexed = record { indexed = swapped-indexed; found = swapped-found }

place-eq :
    (r other from to : ℕ) (s : Session)
    → from < length s.torrent_queue
    → to < length s.torrent_queue
    → place r other from to s ≡ some (swapped r other from to s)
unfolding place swapped write_queue set_queue set_running
place-eq r other from to s p q =
    let to_in : ltb to (length s.torrent_queue) ≡ true = ground arith in
    let from_in : ltb from (length (set s.torrent_queue to r)) ≡ true =
      ground (arith, length-set s.torrent_queue to r) in
    rw (to_in, from_in) refl

module _ (w : World) (notify : ℕ → Session → Session)
    (quiet : (n : ℕ) (t : Session) → Keeps t (notify n t)) where
  pub trade_qindex-Keeps : (r other : ℕ) (s : Session) → Keeps s (trade_qindex w notify r other s)
  unfolding trade_qindex set_qindex
  trade_qindex-Keeps r other s =
      modify_config-Keeps r _ s
      ▸ save-Keeps r _
      ▸ with_handle-Keeps w r notify _ quiet
      ▸ modify_config-Keeps other _ _
      ▸ save-Keeps other _

  -- An exchange of two torrents of the queue is no fault, and its outcome.
  pub exchange-eq :
      (r other from to : ℕ) (s : Session)
      → from < length s.torrent_queue
      → to < length s.torrent_queue
      → exchange w notify r other from to s
        ≡ some (swapped r other from to (trade_qindex w notify r other s))
  unfolding exchange
  exchange-eq r other from to s p q =
      let k = trade_qindex-Keeps r other s in
      place-eq r other from to _ (rw k.queue p) (rw k.queue q)

  pub exchange-IsIndexed :
      {s : Session} {r0 : ℕ} (r other from to : ℕ)
      → IsIndexed s
      → get_elem? s.torrent_queue from ≡ some r0
      → (s.store r0).hash ≡ (s.store r).hash
      → get_elem? s.torrent_queue to ≡ some other
      → from ≢ to
      → Returns IsIndexed (exchange w notify r other from to s)
  exchange-IsIndexed {s} {r0} r other from to v p h q d =
      let k = trade_qindex-Keeps r other s in
      rw (exchange-eq r other from to s (get_elem?-lt _ from r0 p) (get_elem?-lt _ to other q)) (
        returns (
          swapped-IsIndexed r other from to (Keeps-IsIndexed k v) (rw k.queue p)
            (k.hashes r0 ∙ h ∙ sym (k.hashes r)) (rw k.queue q) d))
