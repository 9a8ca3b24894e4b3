-- ===== src/Session/Index/Membership.antt =====
-- Adding torrents keeps the index of the queue.
use bitswash.Prelude.{
  ℕ, none, some, ◌≡◌, ◌∙◌, arith, [], ◌∷◌, ◌++◌, inl, inr, Bool, true, false, ◌==◌, if◌then◌else◌,
  length, get_elem?, get_elem?-lt, get_elem?-append, Option-cases, Bool-cases, update,
}
use bitswash.Torrent.{is_active}
use bitswash.LibTorrent.{World}
use bitswash.Session.{Session, find_torrent_by_hash, set_queue, insert_running, set_running}
use bitswash.Session.Membership.{enqueue, add_torrent}
use bitswash.Session.Frame.{add_torrent_to_session-Local}
use bitswash.Session.Index.{IsIndexed, Keeps-IsIndexed}

module _ (r : ℕ) {s : Session} (v : IsIndexed s)
    (new : s.running_torrent_map (s.store r).hash ≡ none) where
  enqueue-found :
      (h i : ℕ)
      → update s.running_torrent_map (s.store r).hash (some (length s.torrent_queue)) h ≡ some i
      → (q : ℕ) × (get_elem? (s.torrent_queue ++ r ∷ []) i ≡ some q) × ((s.store q).hash ≡ h)
  enqueue-found h i e = elim (Bool-cases ((s.store r).hash == h)) [
    | inl x ↦ (r, get_elem?-append s.torrent_queue r i ∙ ground arith, ground arith)
    | inr x ↦
        let (q, y, z) = v.found h i (ground arith) in
        (
          q,
          get_elem?-append s.torrent_queue r i
              ∙ ground (arith, get_elem?-lt s.torrent_queue i q y, y),
          z,
        )
  ]

  pub enqueue-IsIndexed : IsIndexed (enqueue r s)
  unfolding enqueue set_queue insert_running set_running
  enqueue-IsIndexed =
      rw (new, enqueue, insert_running)
        (record {
          indexed =
              λ i q e. ground (arith, get_elem?-append s.torrent_queue r i, v.indexed i q, new, e);
          found = enqueue-found;
        })

-- If the map of the queue is right, it is right after `AddTorrent`, whether that adds the torrent
-- or finds its hash in the map.
pub add_torrent-IsIndexed :
    (w : World) (r : ℕ) {s : Session} → IsIndexed s → IsIndexed (add_torrent w r s).1
unfolding add_torrent find_torrent_by_hash
add_torrent-IsIndexed w r {s} v = elim (Option-cases (s.running_torrent_map (s.store r).hash)) [
  | inr (i, e) ↦ rw (e, add_torrent) v
  | inl e ↦
      rw (e, add_torrent)
        (either (is_active _)
          (Keeps-IsIndexed (add_torrent_to_session-Local w r _).keeps (enqueue-IsIndexed r v e))
          (enqueue-IsIndexed r v e))
]
  where
    either :
        {t u : Session} (b : Bool)
        → IsIndexed t
        → IsIndexed u
        → IsIndexed (if◌then◌else◌ {A = Bool × Session} b (true, t) (true, u)).1
    either true k l = k
    either false k l = l
