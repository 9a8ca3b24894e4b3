-- ===== src/Session/Index/Loop.antt =====
-- The loops that renumber part of the queue: where the index is right outside that part, it is
-- right everywhere afterwards, and no access is out of range.
use bitswash.Prelude.{
  ℕ, zero, suc, pos, ◌+◌, ◌≤◌, ◌<◌, some, ◌≡◌, refl, sym, ap, ◌∙◌, arith, ◌⊎◌, inl, inr, false,
  ◌==◌, if◌then◌else◌, length, get_elem?, Returns, returns, get_elem?-some, Bool-cases,
}
use bitswash.Session.{Session, set_running, set_qindex, save}
use bitswash.Session.Vector.{for_queue, renumber_at, reindex_at}
use bitswash.Session.Frame.{Keeps, ◌▸◌, modify_config-Keeps, save-Keeps}
use bitswash.Session.Index.{IsIndexed}

-- A torrent with the hash `h` at a position of the range from `lo` to `hi`.
abbrev Within : Session → ℕ → ℕ → ℕ → Type 0
Within s lo hi h =
    (k : ℕ) × (q : ℕ) × (lo ≤ k)
    × (k < hi)
    × (get_elem? s.torrent_queue k ≡ some q)
    × ((s.store q).hash ≡ h)

abbrev Outside : Session → ℕ → ℕ → ℕ → ℕ → Type 0
Outside s lo hi h j =
    (q : ℕ) × ((j < lo) ⊎ (hi ≤ j))
    × (get_elem? s.torrent_queue j ≡ some q)
    × ((s.store q).hash ≡ h)

pub record IsIndexedOutside (lo hi : ℕ) (s : Session) : Type 0 where
  pub indexed :
      (j q : ℕ)
      → get_elem? s.torrent_queue j ≡ some q
      → ((j < lo) ⊎ (hi ≤ j))
      → s.running_torrent_map (s.store q).hash ≡ some j
  pub found : (h j : ℕ) → s.running_torrent_map h ≡ some j → Outside s lo hi h j ⊎ Within s lo hi h
  pub distinct :
      (j k q p : ℕ)
      → get_elem? s.torrent_queue j ≡ some q
      → get_elem? s.torrent_queue k ≡ some p
      → (s.store q).hash ≡ (s.store p).hash
      → j ≡ k

-- What one round does.
pub record Numbers (body : ℕ → ℕ → Session → Session) : Type 0 where
  pub queue : (i r : ℕ) (s : Session) → (body i r s).torrent_queue ≡ s.torrent_queue
  pub hashes : (i r : ℕ) (s : Session) (q : ℕ) → ((body i r s).store q).hash ≡ (s.store q).hash
  pub map :
      (i r : ℕ) (s : Session) (h : ℕ)
      → (body i r s).running_torrent_map h
        ≡ (if (s.store r).hash == h then some i else s.running_torrent_map h)

pub renumber_at-Numbers : Numbers renumber_at
unfolding renumber_at set_running set_qindex
renumber_at-Numbers = record {
  queue = λ i r s. (keeps i r s).queue;
  hashes = λ i r s q. (keeps i r s).hashes q;
  map = λ i r s h. ground (arith, (keeps i r s).hashes r, ap (λ m. m h) (keeps i r s).map);
}
  where
    keeps : (i r : ℕ) (s : Session) → Keeps s (save r (set_qindex r (pos i) s))
    keeps i r s = modify_config-Keeps r _ s ▸ save-Keeps r _

pub reindex_at-Numbers : Numbers reindex_at
unfolding reindex_at set_running
reindex_at-Numbers = record {
  queue = λ i r s. refl;
  hashes = λ i r s q. refl;
  map = λ i r s h. refl;
}

-- The range loses its first position, which the round has given an entry.
shrink :
    (s : Session) (i n r h j : ℕ)
    → get_elem? s.torrent_queue i ≡ some r
    → (if (s.store r).hash == h then some i else s.running_torrent_map h) ≡ some j
    → IsIndexedOutside i (i + suc n) s
    → Outside s (i + 1) (i + 1 + n) h j ⊎ Within s (i + 1) (i + 1 + n) h
shrink s i n r h j at_i e v = elim (Bool-cases ((s.store r).hash == h)) [
  | inl x ↦ inl (r, inl (ground arith), ground arith, ground arith)
  | inr x ↦ go x (v.found h j (ground arith))
]
  where
    go :
        ((s.store r).hash == h) ≡ false
        → (Outside s i (i + suc n) h j ⊎ Within s i (i + suc n) h)
        → Outside s (i + 1) (i + 1 + n) h j ⊎ Within s (i + 1) (i + 1 + n) h
    go x (inl (q, inl o, d, f)) = inl (q, inl (omega arith), d, f)
    go x (inl (q, inr o, d, f)) = inl (q, inr (omega arith), d, f)
    go x (inr (k, q, a, b, d, f)) = inr (k, q, ground arith, ground arith, d, f)

module _ {body : ℕ → ℕ → Session → Session} (law : Numbers body) where
  moved :
      (i r h j lo hi : ℕ) (s : Session)
      → Outside s lo hi h j ⊎ Within s lo hi h
      → Outside (body i r s) lo hi h j ⊎ Within (body i r s) lo hi h
  moved i r h j lo hi s (inl (q, o, d, f)) =
      inl (q, o, ap (λ xs. get_elem? xs j) (law.queue i r s) ∙ d, law.hashes i r s q ∙ f)
  moved i r h j lo hi s (inr (k, q, a, b, d, f)) =
      inr (k, q, a, b, ap (λ xs. get_elem? xs k) (law.queue i r s) ∙ d, law.hashes i r s q ∙ f)

  step :
      (i n r : ℕ) {s : Session}
      → get_elem? s.torrent_queue i ≡ some r
      → IsIndexedOutside i (i + suc n) s
      → IsIndexedOutside (i + 1) (i + 1 + n) (body i r s)
  step i n r {s} at_i v = record {
    indexed = λ j q e o.
        let e' = ap (λ xs. get_elem? xs j) (sym (law.queue i r s)) ∙ e in
        ground (
          arith,
          law.hashes i r s q,
          law.map i r s (s.store q).hash,
          v.indexed j q e',
          v.distinct i j r q at_i e',
          at_i,
          e',
        );
    found = λ h j e. moved i r h j _ _ s (shrink s i n r h j at_i (sym (law.map i r s h) ∙ e) v);
    distinct = λ j k q p e d h.
        v.distinct j k q p (ap (λ xs. get_elem? xs j) (sym (law.queue i r s)) ∙ e)
          (ap (λ xs. get_elem? xs k) (sym (law.queue i r s)) ∙ d)
          (sym (law.hashes i r s q) ∙ h ∙ law.hashes i r s p);
  }

  done : (i : ℕ) {s : Session} → IsIndexedOutside i (i + 0) s → IsIndexed s
  done i {s} v = record {
    indexed = λ j q e. v.indexed j q e (omega arith);
    found = λ h j e. go h j (v.found h j e);
  }
    where
      go :
          (h j : ℕ)
          → (Outside s i (i + 0) h j ⊎ Within s i (i + 0) h)
          → (q : ℕ) × (get_elem? s.torrent_queue j ≡ some q) × ((s.store q).hash ≡ h)
      go h j (inl (q, o, d, f)) = (q, d, f)
      go h j (inr (k, q, a, b, d, f)) = absurd (omega arith)

  pub for_queue-IsIndexed :
      (n i : ℕ) {s : Session}
      → i + n ≤ length s.torrent_queue
      → IsIndexedOutside i (i + n) s
      → Returns IsIndexed (for_queue body n i s)
  unfolding for_queue
  for_queue-IsIndexed zero i b v = returns (done i v)
  for_queue-IsIndexed (suc n) i {s} b v =
      let (r, e) = get_elem?-some s.torrent_queue i (omega arith) in
      rw (e, for_queue)
        (for_queue-IsIndexed n (i + 1) (rw (law.queue i r s) (omega arith)) (step i n r e v))
