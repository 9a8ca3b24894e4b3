-- ===== src/Session/Order.antt =====
-- What the moves and `AddTorrent` do to the order of the queue.
use bitswash.Prelude.{
  ℕ, suc, ℤ, pos, negsuc, ◌<◌, ◌≤◌, [], ◌∷◌, ◌++◌, none, some, true, false, ◌≡◌, ◌≢◌, refl, sym, ap,
  ◌∙◌, inl, inr, arith, ltb, leb, ◌==◌, if◌then◌else◌, length, get_elem?, drop, set, erase_at,
  length-erase_at, Bool-cases, Returns, returns,
}
use bitswash.Torrent.{is_active}
use bitswash.LibTorrent.{World, queue_position_up}
use bitswash.Session.{
  Session, emit, set_qindex, save, find_torrent_by_hash, set_queue, insert_running, set_running,
}
use bitswash.Session.Adding.{add_torrent_to_session}
use bitswash.Session.Stopping.{with_handle}
use bitswash.Session.Vector.{erase_queue, insert_queue}
use bitswash.Session.Moving.{
  qindex_of, is_negative, trade_qindex, move_up_from, move_torrent_up, relocate, bottom_qindex,
  move_to_bottom, move_bottom_from, move_torrent_bottom,
}
use bitswash.Session.Membership.{enqueue, add_torrent}
use bitswash.Session.Frame.{
  Local, modify_config-Local, save-Local, ◌▹◌, emit-Keeps, with_handle-Local, emit-Local,
  add_torrent_to_session-Local,
}
use bitswash.Session.Index.Exchange.{swapped, trade_qindex-Keeps, exchange-eq}
use bitswash.Session.Index.Numbering.{with_handle-SameIndex, emit-SameIndex, save-qindex}

module _ (w : World) (r other : ℕ) (s : Session) (apart : r ≢ other) where
  half : Session
  half =
      with_handle w r (λ n. emit (queue_position_up n))
        (save r (set_qindex r (qindex_of s other) s))

  half-Local : Local r s half
  unfolding half set_qindex
  half-Local =
      modify_config-Local r _ s ▹ save-Local r _ ▹ with_handle-Local w r _ _ (λ n t. emit-Local _)

  half-qindex : qindex_of half r ≡ qindex_of s other
  unfolding half
  half-qindex =
      (with_handle-SameIndex w r _ _ (λ n t. emit-SameIndex _)).same
      ∙ save-qindex r (qindex_of s other) s

  other-Local : (z : ℤ) (t : Session) → Local other t (save other (set_qindex other z t))
  unfolding set_qindex
  other-Local z t = modify_config-Local other _ t ▹ save-Local other _

  -- The two torrents have traded their indices.
  trade_qindex-first :
      qindex_of (trade_qindex w (λ n. emit (queue_position_up n)) r other s) r ≡ qindex_of s other
  unfolding trade_qindex half
  trade_qindex-first =
      ap (λ t. t.config.qindex) ((other-Local (qindex_of s r) half).others r (λ e. apart (sym e)))
      ∙ half-qindex

  trade_qindex-second :
      qindex_of (trade_qindex w (λ n. emit (queue_position_up n)) r other s) other ≡ qindex_of s r
  unfolding trade_qindex half
  trade_qindex-second = save-qindex other (qindex_of s r) half

-- The torrent at `r` has changed places with `previous`, which stood before it, at position `i`.
pub record Raised (r previous i : ℕ) (s t : Session) : Type 0 where
  pub queue : t.torrent_queue ≡ set (set s.torrent_queue i r) (suc i) previous
  pub index : qindex_of t r ≡ qindex_of s previous
  pub index_of_previous : qindex_of t previous ≡ qindex_of s r

-- `MoveTorrentUp` of a torrent found at position `i + 1` of the queue, with no negative index,
-- exchanges it in the queue with the other torrent, which stands at `i`, and the two trade their
-- indices.
pub move_torrent_up-Raised :
    (w : World) (r previous i : ℕ) {s : Session}
    → find_torrent_by_hash (s.store r).hash s ≡ some (suc i)
    → suc i < length s.torrent_queue
    → is_negative (qindex_of s r) ≡ false
    → get_elem? s.torrent_queue i ≡ some previous
    → r ≢ previous
    → Returns (Raised r previous i s) (move_torrent_up w r s)
unfolding move_torrent_up move_up_from swapped
move_torrent_up-Raised w r previous i {s} e l n p d =
    let notify = λ (n : ℕ). emit (queue_position_up n) in
    let k = trade_qindex-Keeps w notify (λ n t. emit-Keeps _) r previous s in
    rw
      (
        e,
        move_torrent_up,
        n,
        move_up_from,
        p,
        exchange-eq w notify (λ n t. emit-Keeps _) r previous (suc i) i s l (omega arith),
      )
      (returns (record {
        queue = ap (λ q. set (set q i r) (suc i) previous) k.queue;
        index = trade_qindex-first w r previous s d;
        index_of_previous = trade_qindex-second w r previous s d;
      }))

-- `MoveTorrentBottom` accesses the queue out of range when the torrent is not last in the queue,
-- its index is not negative, and the last index that the loop finds behind it is no position of
-- the queue.
pub move_torrent_bottom-fault :
    (w : World) (r i b : ℕ) (s : Session)
    → find_torrent_by_hash (s.store r).hash s ≡ some i
    → suc i < length s.torrent_queue
    → is_negative (qindex_of s r) ≡ false
    → bottom_qindex s (negsuc 0) (drop (suc i) s.torrent_queue) ≡ pos b
    → length s.torrent_queue ≤ b
    → move_torrent_bottom w r s ≡ none
unfolding move_torrent_bottom move_bottom_from move_to_bottom relocate erase_queue insert_queue
    set_queue
move_torrent_bottom-fault w r i b s e l n p o =
    let q = s.torrent_queue in
    let middle : (suc i == length q) ≡ false = ground arith in
    let below : ltb i b ≡ true = ground arith in
    let out : ltb i (length q) ≡ true = ground arith in
    let beyond : leb b (length (erase_at q i)) ≡ false = ground (arith, length-erase_at q i) in
    rw
      (
        e, move_torrent_bottom, middle, move_bottom_from, n, p, move_to_bottom, below, relocate,
        erase_queue, out, insert_queue, beyond,
      )
      refl

-- What `AddTorrent` makes of a torrent whose hash is new.
pub record Appended (r : ℕ) (s t : Session) : Type 0 where
  pub queue : t.torrent_queue ≡ s.torrent_queue ++ r ∷ []
  pub map :
      (h : ℕ)
      → t.running_torrent_map h
        ≡ (if (s.store r).hash == h then some (length s.torrent_queue) else s.running_torrent_map h)
  pub others : (q : ℕ) → r ≢ q → t.store q ≡ s.store q

enqueue-Appended :
    (r : ℕ) (s : Session)
    → s.running_torrent_map (s.store r).hash ≡ none
    → Appended r s (enqueue r s)
unfolding enqueue insert_running set_running set_queue
enqueue-Appended r s e =
    rw (e, enqueue, insert_running) (record { queue = refl; map = λ h. refl; others = λ q d. refl })

Local-Appended : {r : ℕ} {s t u : Session} → Local r t u → Appended r s t → Appended r s u
Local-Appended k v = record {
  queue = k.keeps.queue ∙ v.queue;
  map = λ h. ap (λ m. m h) k.keeps.map ∙ v.map h;
  others = λ q d. k.others q d ∙ v.others q d;
}

-- `AddTorrent` of a torrent whose hash is not in the map returns true, puts the torrent at the
-- end of the queue, adds its position to the map and nothing else, and leaves every other torrent
-- as it is, whether or not libtorrent takes it.
pub add_torrent-Appended :
    (w : World) (r : ℕ) (s : Session)
    → find_torrent_by_hash (s.store r).hash s ≡ none
    → (t : Session) × (add_torrent w r s ≡ (true, t)) × Appended r s t
unfolding add_torrent find_torrent_by_hash
add_torrent-Appended w r s e =
    let t = enqueue r s in
    let a = enqueue-Appended r s e in
    elim (Bool-cases (is_active (t.store r).config.torrent_state)) [
      | inl x ↦ (
        add_torrent_to_session w r t,
        rw (e, add_torrent, find_torrent_by_hash, x) refl,
        Local-Appended (add_torrent_to_session-Local w r t) a,
      )
      | inr x ↦ (t, rw (e, add_torrent, find_torrent_by_hash, x) refl, a)
    ]
