-- ===== src/Session/Index/Moves.antt =====
-- Every move keeps the index, and none reaches out of the queue's range when indices are positions.
use bitswash.Prelude.{
  ℕ, suc, ◌+◌, ◌-◌, ◌≤◌, ◌<◌, some, ◌≡◌, refl, sym, ap, ◌∙◌, ◌≢◌, arith, ◌⊎◌, inl, inr, true, false,
  ltb, leb, ◌==◌, if◌then◌else◌, length, get_elem?, erase_at, insert_at, Returns, get_elem?-lt,
  get_elem?-insert_at, get_elem?-erase_at, length-insert_at, length-erase_at, Bool-cases,
}
use bitswash.Session.{Session, set_queue}
use bitswash.Session.Vector.{erase_queue, insert_queue, renumber}
use bitswash.Session.Moving.{relocate}
use bitswash.Session.Index.{IsIndexed, IsIndexed-distinct}
use bitswash.Session.Index.Loop.{IsIndexedOutside, for_queue-IsIndexed, renumber_at-Numbers}

-- Where the torrent at position `j` of the new queue stood before.
abbrev origin : ℕ → ℕ → ℕ → ℕ
origin from to j =
    if ltb j to
    then (if ltb j from then j else suc j)
    else if to == j
    then from
    else if ltb (j - 1) from
    then j - 1
    else suc (j - 1)

abbrev target : ℕ → ℕ → ℕ → ℕ
target from to k =
    let e = if ltb k from then k else k - 1 in
    if from == k then to else if ltb e to then e else suc e

range_cases : (lo hi j : ℕ) → ((lo ≤ j) × (j < hi)) ⊎ ((j < lo) ⊎ (hi ≤ j))
range_cases lo hi j = grind arith

-- The queue with the torrent at `from` taken out and put in again at `to`.
abbrev reordered : ℕ → ℕ → ℕ → Session → Session
reordered r from to s = record s { torrent_queue = insert_at (erase_at s.torrent_queue from) to r }

module _ {s : Session} {r0 : ℕ} (r from to : ℕ) (v : IsIndexed s)
    (at_from : get_elem? s.torrent_queue from ≡ some r0)
    (same : (s.store r0).hash ≡ (s.store r).hash) (in_range : to < length s.torrent_queue) where
  new_elem :
      (j : ℕ)
      → get_elem? (insert_at (erase_at s.torrent_queue from) to r) j
        ≡ (if to == j then some r else get_elem? s.torrent_queue (origin from to j))
  new_elem j = ground (
    arith,
    get_elem?-insert_at (erase_at s.torrent_queue from) to r j,
    get_elem?-erase_at s.torrent_queue from j,
    get_elem?-erase_at s.torrent_queue from (j - 1),
    length-erase_at s.torrent_queue from,
    get_elem?-lt s.torrent_queue from r0 at_from,
  )

  came_from :
      (j q : ℕ)
      → get_elem? (insert_at (erase_at s.torrent_queue from) to r) j ≡ some q
      → (p : ℕ) × (get_elem? s.torrent_queue (origin from to j) ≡ some p)
        × ((s.store p).hash ≡ (s.store q).hash)
  came_from j q e = elim (Bool-cases (to == j)) [
    | inl x ↦ (r0, ground (arith, at_from), ground (arith, new_elem j))
    | inr x ↦ (
      q,
      sym (
            new_elem j
            ∙ ap (λ b. if b then some r else get_elem? s.torrent_queue (origin from to j)) x)
          ∙ e,
      refl,
    )
  ]

  back :
      (k : ℕ)
      → (from == k) ≡ false
      → (to ≢ target from to k) × (origin from to (target from to k) ≡ k)
  back k d = ground arith

  goes_to :
      (k q : ℕ)
      → get_elem? s.torrent_queue k ≡ some q
      → (p : ℕ) × (get_elem? (insert_at (erase_at s.torrent_queue from) to r) (target from to k)
          ≡ some p)
        × ((s.store p).hash ≡ (s.store q).hash)
  goes_to k q e = elim (Bool-cases (from == k)) [
    | inl x ↦ (r, ground (arith, new_elem to), ground (arith, at_from))
    | inr x ↦ (
      q,
      ground (
        arith,
        new_elem (target from to k),
        (back k x).0,
        ap (get_elem? s.torrent_queue) (back k x).1,
      ),
      refl,
    )
  ]

  same_origin : (j k : ℕ) → origin from to j ≡ origin from to k → j ≡ k
  same_origin j k e = ground arith

  module _ (lo hi : ℕ) (a : lo ≤ from) (b : lo ≤ to) (c : from < hi) (d : to < hi) where
    outside_origin : (j : ℕ) → ((j < lo) ⊎ (hi ≤ j)) → origin from to j ≡ j
    outside_origin j o = ground arith

    inside_target : (k : ℕ) → lo ≤ k → k < hi → (lo ≤ target from to k) × (target from to k < hi)
    inside_target k x y = ground arith

    outside_target : (k : ℕ) → ((k < lo) ⊎ (hi ≤ k)) → target from to k ≡ k
    outside_target k o = ground arith

    reordered-IsIndexedOutside : IsIndexedOutside lo hi (reordered r from to s)
    reordered-IsIndexedOutside = record {
      indexed = λ j q e o.
          let (p, x, y) = came_from j q e in
          sym (ap s.running_torrent_map y) ∙ v.indexed _ p x ∙ ap some (outside_origin j o);
      found = λ h j e.
          let (q, x, y) = v.found h j e in
          let (p, z, u) = goes_to j q x in
          elim (range_cases lo hi j) [
            | inl (l, m) ↦
                inr
                  (target from to j, p, (inside_target j l m).0, (inside_target j l m).1, z, u ∙ y)
            | inr o ↦ inl (p, o, ap (get_elem? _) (sym (outside_target j o)) ∙ z, u ∙ y)
          ];
      distinct = λ j k q p e f h.
          let (q', x, y) = came_from j q e in
          let (p', z, u) = came_from k p f in
          same_origin j k (IsIndexed-distinct _ _ q' p' v x z (y ∙ h ∙ sym u));
    }

relocate-eq :
    (r from to lo n : ℕ) (s : Session)
    → from < length s.torrent_queue
    → to < length s.torrent_queue
    → relocate r from to lo n s ≡ renumber n lo (reordered r from to s)
unfolding relocate erase_queue insert_queue set_queue
relocate-eq r from to lo n s p q =
    let out : ltb from (length s.torrent_queue) ≡ true = ground arith in
    let back_in : leb to (length (erase_at s.torrent_queue from)) ≡ true =
      ground (arith, length-erase_at s.torrent_queue from p) in
    rw (out, back_in) refl

-- A torrent of the queue taken out at `from` and put in at `to`, with the positions between
-- renumbered: no access is out of range, and the index is right.
pub relocate-IsIndexed :
    {s : Session} {r0 : ℕ} (r from to lo n : ℕ)
    → IsIndexed s
    → get_elem? s.torrent_queue from ≡ some r0
    → (s.store r0).hash ≡ (s.store r).hash
    → lo ≤ from
    → lo ≤ to
    → from < lo + n
    → to < lo + n
    → lo + n ≤ length s.torrent_queue
    → Returns IsIndexed (relocate r from to lo n s)
unfolding renumber
relocate-IsIndexed {s} {r0} r from to lo n v e h a b c d l =
    let out = length-erase_at s.torrent_queue from (omega arith) in
    let size = length-insert_at (erase_at s.torrent_queue from) to r in
    rw (relocate-eq r from to lo n s (omega arith) (omega arith), renumber)
      (for_queue-IsIndexed renumber_at-Numbers n lo (omega arith)
        (reordered-IsIndexedOutside r from to v e h (omega arith) lo (lo + n) a b c d))
