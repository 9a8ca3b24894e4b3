-- ===== src/Session/Index/Operations.antt =====
-- The four moves keep the index of the queue and never reach out of its range.
use bitswash.Prelude.{
  ℕ, zero, suc, pos, negsuc, ℤ, ◌+◌, ◌-◌, ◌<◌, some, ◌≡◌, refl, sym, ap, ◌∙◌, arith, List, [], ◌∷◌,
  inl, inr, false, ltb, ◌==◌, if◌then◌else◌, length, get_elem?, Returns, returns, Returns-bind,
  Returns-if, ◌>>=◌, get_elem?-lt, get_elem?-some, Option-cases, Bool-cases, drop,
}
use bitswash.LibTorrent.{World, queue_position_down}
use bitswash.Session.{Session, emit, find_torrent_by_hash}
use bitswash.Session.Moving.{
  qindex_of, is_negative, exchange, move_up_from, move_torrent_up, move_down_from,
  move_torrent_down, move_top_from, move_torrent_top, bottom_qindex, move_to_bottom,
  move_bottom_from, move_torrent_bottom,
}
use bitswash.Session.Frame.{emit-Keeps, with_handle-Keeps}
use bitswash.Session.Index.{IsIndexed, Keeps-IsIndexed}
use bitswash.Session.Index.Exchange.{exchange-IsIndexed}
use bitswash.Session.Index.Moves.{relocate-IsIndexed}

-- A torrent that the map names stands at that position, or one with its hash does.
module _ {s : Session} (r i : ℕ) (v : IsIndexed s)
    (e : find_torrent_by_hash (s.store r).hash s ≡ some i) where
  found_at :
      (q : ℕ) × (get_elem? s.torrent_queue i ≡ some q) × ((s.store q).hash ≡ (s.store r).hash)
  unfolding find_torrent_by_hash
  found_at = v.found _ i e

module _ (w : World) {s : Session} (r : ℕ) (v : IsIndexed s) where
  move_up_from-IsIndexed :
      (i : ℕ)
      → find_torrent_by_hash (s.store r).hash s ≡ some i
      → Returns IsIndexed (move_up_from w r i s)
  unfolding move_up_from
  move_up_from-IsIndexed zero e = returns v
  move_up_from-IsIndexed (suc i) e =
      let (q, x, y) = found_at r (suc i) v e in
      let (p, z) =
        get_elem?-some s.torrent_queue i
          (omega (arith, get_elem?-lt s.torrent_queue (suc i) q x)) in
      elim (Bool-cases (is_negative (qindex_of s r))) [
        | inl n ↦ rw (n, move_up_from) (returns v)
        | inr n ↦
            rw (n, z, move_up_from)
              (exchange-IsIndexed w _ (λ n t. emit-Keeps _) r p (suc i) i v x y z (omega arith))
      ]

  -- If the map of the queue is right, `MoveTorrentUp` accesses nothing out of range and leaves
  -- the map right, on every branch.
  pub move_torrent_up-IsIndexed : Returns IsIndexed (move_torrent_up w r s)
  unfolding move_torrent_up
  move_torrent_up-IsIndexed = elim (Option-cases (find_torrent_by_hash (s.store r).hash s)) [
    | inl e ↦ rw (e, move_torrent_up) (returns v)
    | inr (i, e) ↦ rw (e, move_torrent_up) (move_up_from-IsIndexed i e)
  ]

  beyond : {n : ℕ} (i : ℕ) → i < n → (suc i == n) ≡ false → suc i < n
  beyond i a b = ground arith

  below :
      (i q : ℕ)
      → get_elem? s.torrent_queue i ≡ some q
      → (s.store q).hash ≡ (s.store r).hash
      → (suc i == length s.torrent_queue) ≡ false
      → Returns IsIndexed (
          get_elem? s.torrent_queue (suc i) >>= λ next.
          if is_negative (qindex_of s next)
          then some s
          else exchange w (λ n. emit (queue_position_down n)) r next i (suc i) s)
  below i q x y last =
      let (p, z) =
        get_elem?-some s.torrent_queue (suc i)
          (beyond i (get_elem?-lt s.torrent_queue i q x) last) in
      rw z (
        Returns-if (is_negative (qindex_of s p)) (returns v) λ _.
          exchange-IsIndexed w (λ n. emit (queue_position_down n)) (λ n t. emit-Keeps _) r p i
            (suc i) v x y z (omega arith))

  move_down_from-IsIndexed :
      (i : ℕ)
      → find_torrent_by_hash (s.store r).hash s ≡ some i
      → Returns IsIndexed (move_down_from w r i s)
  unfolding move_down_from
  move_down_from-IsIndexed i e =
      let (q, x, y) = found_at r i v e in
      Returns-if (suc i == length s.torrent_queue) (returns v)
        λ last. Returns-if (is_negative (qindex_of s r)) (returns v) (λ _. below i q x y last)

  -- If the map of the queue is right, `MoveTorrentDown` accesses nothing out of range and leaves
  -- the map right, on every branch.
  pub move_torrent_down-IsIndexed : Returns IsIndexed (move_torrent_down w r s)
  unfolding move_torrent_down
  move_torrent_down-IsIndexed = elim (Option-cases (find_torrent_by_hash (s.store r).hash s)) [
    | inl e ↦ rw (e, move_torrent_down) (returns v)
    | inr (i, e) ↦ rw (e, move_torrent_down) (move_down_from-IsIndexed i e)
  ]

  move_top_from-IsIndexed :
      (i : ℕ)
      → find_torrent_by_hash (s.store r).hash s ≡ some i
      → Returns IsIndexed (move_top_from w r i s)
  unfolding move_top_from
  move_top_from-IsIndexed zero e = returns v
  move_top_from-IsIndexed (suc i) e =
      let (q, x, y) = found_at r (suc i) v e in
      elim (Bool-cases (is_negative (qindex_of s r))) [
        | inl n ↦ rw (n, move_top_from) (returns v)
        | inr n ↦
            rw (n, move_top_from)
              (Returns-bind
                (relocate-IsIndexed r (suc i) 0 0 (suc (suc i)) v x y (omega arith) (omega arith)
                  (omega arith) (omega arith)
                  (omega (arith, get_elem?-lt s.torrent_queue (suc i) q x)))
                λ t u.
                  returns (Keeps-IsIndexed (with_handle-Keeps w r _ t (λ n t. emit-Keeps _)) u))
      ]

  -- If the map of the queue is right, `MoveTorrentTop` accesses nothing out of range and leaves
  -- the map right, on every branch.
  pub move_torrent_top-IsIndexed : Returns IsIndexed (move_torrent_top w r s)
  unfolding move_torrent_top
  move_torrent_top-IsIndexed = elim (Option-cases (find_torrent_by_hash (s.store r).hash s)) [
    | inl e ↦ rw (e, move_torrent_top) (returns v)
    | inr (i, e) ↦ rw (e, move_torrent_top) (move_top_from-IsIndexed i e)
  ]

-- No torrent of the queue has an index beyond its end.
abbrev pub IndicesInRange : Session → Type 0
IndicesInRange s =
    (k q b : ℕ)
    → get_elem? s.torrent_queue k ≡ some q
    → qindex_of s q ≡ pos b
    → b < length s.torrent_queue

-- A bound on the indices of a list of torrents.
abbrev Bounded : Session → ℕ → List ℕ → Type 0
Bounded s m xs = (k q b : ℕ) → get_elem? xs k ≡ some q → qindex_of s q ≡ pos b → b < m

bottom_qindex-lt :
    (s : Session) (m : ℕ) (xs : List ℕ) (acc : ℤ)
    → Bounded s m xs
    → ((b : ℕ) → acc ≡ pos b → b < m)
    → (b : ℕ) → bottom_qindex s acc xs ≡ pos b
    → b < m
unfolding bottom_qindex
bottom_qindex-lt s m [] acc h a b e = a b e
bottom_qindex-lt s m (x ∷ xs) acc h a b e = elim (Bool-cases (is_negative (qindex_of s x))) [
  | inl n ↦ a b (sym (ap (λ t. if t then acc else bottom_qindex s (qindex_of s x) xs) n) ∙ e)
  | inr n ↦
      bottom_qindex-lt s m xs (qindex_of s x) (λ k q c. h (suc k) q c) (λ c. h 0 x c refl) b
        (sym (ap (λ t. if t then acc else bottom_qindex s (qindex_of s x) xs) n) ∙ e)
]

get_elem?-drop : (xs : List ℕ) (i k : ℕ) → get_elem? (drop i xs) k ≡ get_elem? xs (i + k)
get_elem?-drop xs zero k = ap (get_elem? xs) (omega arith)
get_elem?-drop [] (suc i) k = refl
get_elem?-drop (x ∷ xs) (suc i) k =
    let index : suc i + k ≡ suc (i + k) = omega arith in rw index (get_elem?-drop xs i k)

module _ (w : World) {s : Session} (r : ℕ) (v : IsIndexed s) (h : IndicesInRange s) where
  move_to_bottom-IsIndexed :
      (i : ℕ) (z : ℤ)
      → find_torrent_by_hash (s.store r).hash s ≡ some i
      → ((b : ℕ) → z ≡ pos b → b < length s.torrent_queue)
      → Returns IsIndexed (move_to_bottom r i z s)
  unfolding move_to_bottom
  move_to_bottom-IsIndexed i (negsuc b) e m = returns v
  move_to_bottom-IsIndexed i (pos b) e m =
      let (q, x, y) = found_at r i v e in
      elim (Bool-cases (ltb i b)) [
        | inl l ↦
            rw (l, move_to_bottom)
              (relocate-IsIndexed r i b i (suc b - i) v x y (omega arith) (ground arith)
                (ground arith) (ground arith) (ground (arith, m b refl)))
        | inr l ↦ rw (l, move_to_bottom) (returns v)
      ]

  move_bottom_from-IsIndexed :
      (i : ℕ)
      → find_torrent_by_hash (s.store r).hash s ≡ some i
      → Returns IsIndexed (move_bottom_from w r i s)
  unfolding move_bottom_from
  move_bottom_from-IsIndexed i e = Returns-if (suc i == length s.torrent_queue) (returns v) λ _.
      Returns-if (is_negative (qindex_of s r)) (returns v) λ _.
        Returns-bind
          (move_to_bottom-IsIndexed i _ e (
            bottom_qindex-lt s _ (drop (suc i) s.torrent_queue) (negsuc 0)
              (λ k q b d. h (suc i + k) q b (sym (get_elem?-drop s.torrent_queue (suc i) k) ∙ d))
              (λ b d. cc)))
          λ t u. returns (Keeps-IsIndexed (with_handle-Keeps w r _ t (λ n t. emit-Keeps _)) u)

  -- If the map of the queue is right and no torrent of the queue has an index beyond the end of
  -- the queue, `MoveTorrentBottom` accesses nothing out of range and leaves the map right, on
  -- every branch.
  pub move_torrent_bottom-IsIndexed : Returns IsIndexed (move_torrent_bottom w r s)
  unfolding move_torrent_bottom
  move_torrent_bottom-IsIndexed = elim (Option-cases (find_torrent_by_hash (s.store r).hash s)) [
    | inl e ↦ rw (e, move_torrent_bottom) (returns v)
    | inr (i, e) ↦ rw (e, move_torrent_bottom) (move_bottom_from-IsIndexed i e)
  ]
