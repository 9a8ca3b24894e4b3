-- ===== src/Session/Index/Numbering.antt =====
-- Loops that number the queue: they access no position out of range, and afterwards each torrent has
-- its position as its index.
use bitswash.Prelude.{
  ℕ, ℤ, zero, suc, pos, ◌+◌, ◌≤◌, ◌<◌, Option, none, some, ◌≡◌, ◌≢◌, refl, sym, ap, ◌∙◌, inl, inr,
  arith, ◌==◌, Bool-cases, length, get_elem?, get_elem?-some, get_elem?-lt, Returns, returns,
  Returns-map, if◌then◌else◌, ==_refl, ltb_ℤ, Bool, true, false, subst,
}
use bitswash.Torrent.{clamp_uploads, TorrentConfig}
use bitswash.LibTorrent.{World, Effect}
use bitswash.Session.{Session, emit, set_torrent, modify_config, set_qindex, save}
use bitswash.Session.Stopping.{with_handle}
use bitswash.Session.Vector.{for_queue}
use bitswash.Session.Moving.{qindex_of}
use bitswash.Session.Loading.{is_saved, keep_magnet, save_handle, save_torrent_at, save_all_torrent}
use bitswash.Session.Frame.{
  Keeps, Keeps-refl, ◌▸◌, Local, Local-refl, ◌▹◌, Local-if, emit-Local, modify_config-Local,
  save-Local, with_handle-Local,
}
use bitswash.Session.Index.{IsIndexed, Keeps-IsIndexed, IsIndexed-distinct}

-- Each torrent of the first `n` positions has its position as its index.
pub IsNumbered : ℕ → Session → Type 0
IsNumbered n s = (j q : ℕ) → j < n → get_elem? s.torrent_queue j ≡ some q → qindex_of s q ≡ pos j

-- What one round of such a loop does.
pub record Indexes (body : ℕ → ℕ → Session → Session) : Type 0 where
  pub local : (i r : ℕ) (s : Session) → Local r s (body i r s)
  pub index : (i r : ℕ) (s : Session) → qindex_of (body i r s) r ≡ pos i

record Numbered (n : ℕ) (s t : Session) : Type 0 where
  keeps : Keeps s t
  numbered : IsNumbered n t

module _ {body : ℕ → ℕ → Session → Session} (law : Indexes body) where
  round :
      (i r : ℕ) {s : Session}
      → IsIndexed s
      → get_elem? s.torrent_queue i ≡ some r
      → IsNumbered i s
      → IsNumbered (suc i) (body i r s)
  unfolding IsNumbered
  round i r {s} v e h j q l d =
      let d' = ap (λ xs. get_elem? xs j) (sym (law.local i r s).keeps.queue) ∙ d in
      elim (Bool-cases (r == q)) [
        | inl x ↦
            let same : r ≡ q = ground arith in
            let here : i ≡ j =
              IsIndexed-distinct i j r q v e d' (ap (λ p. (s.store p).hash) same) in
            ap (qindex_of (body i r s)) (sym same) ∙ law.index i r s ∙ ap pos here
        | inr x ↦
            let other : r ≢ q = ground arith in
            let before : i ≢ j = λ y. ground (arith, y, e, d', other) in
            ap (λ t. t.config.qindex) ((law.local i r s).others q other) ∙ h j q (ground arith) d'
      ]

  for_queue-Numbered :
      (n i : ℕ) {s : Session}
      → IsIndexed s
      → i + n ≤ length s.torrent_queue
      → IsNumbered i s
      → Returns (Numbered (i + n) s) (for_queue body n i s)
  unfolding for_queue
  for_queue-Numbered zero i {s} v b h =
      let end : i ≡ i + 0 = omega arith in
      returns (record { keeps = Keeps-refl; numbered = subst (λ k. IsNumbered k s) end h })
  for_queue-Numbered (suc n) i {s} v b h =
      let (r, e) = get_elem?-some s.torrent_queue i (omega arith) in
      let k = (law.local i r s).keeps in
      let next : i + 1 ≡ suc i = omega arith in
      let whole : i + 1 + n ≡ i + suc n = omega arith in
      let rest =
        for_queue-Numbered n (i + 1) (Keeps-IsIndexed k v) (rw k.queue (omega arith))
          (rw next (round i r v e h)) in
      rw (e, for_queue)
        (Returns-map rest λ t m. record {
          keeps = k ▸ m.keeps;
          numbered = subst (λ p. IsNumbered p t) whole m.numbered;
        })

-- A step that leaves the index of the torrent at `r` alone.
pub record SameIndex (r : ℕ) (s t : Session) : Type 0 where
  pub same : qindex_of t r ≡ qindex_of s r

SameIndex-refl : {r : ℕ} {s : Session} → SameIndex r s s
SameIndex-refl = record { same = refl }

SameIndex-if :
    {r : ℕ} {s t u : Session} (b : Bool)
    → SameIndex r s t
    → SameIndex r s u
    → SameIndex r s (if b then t else u)
SameIndex-if true k l = k
SameIndex-if false k l = l

pub emit-SameIndex : {r : ℕ} (e : Effect) {s : Session} → SameIndex r s (emit e s)
unfolding emit
emit-SameIndex e = record { same = refl }

save_handle-SameIndex : (w : World) (n r : ℕ) (s : Session) → SameIndex r s (save_handle w n r s)
unfolding save_handle keep_magnet
save_handle-SameIndex w n r s =
    SameIndex-if (is_saved w n r s) (SameIndex-if _ (emit-SameIndex _) SameIndex-refl)
      (record { same = (emit-SameIndex _).same ∙ (emit-SameIndex {r = r} _ {s = s}).same })

pub with_handle-SameIndex :
    (w : World) (r : ℕ) (f : ℕ → Session → Session) (s : Session)
    → ((n : ℕ) (t : Session) → SameIndex r t (f n t))
    → SameIndex r s (with_handle w r f s)
unfolding with_handle
with_handle-SameIndex w r f s keep = go (s.store r).handle
  where
    go :
        (h : Option ℕ)
        → SameIndex r s
            (elim h [ none ↦ s | some n ↦ if w.handle_is_valid s.history n then f n s else s ])
    go none = SameIndex-refl
    go (some n) = SameIndex-if (w.handle_is_valid s.history n) (keep n s) SameIndex-refl

clamp_uploads-qindex : (c : TorrentConfig) → (clamp_uploads c).qindex ≡ c.qindex
clamp_uploads-qindex c = elim (Bool-cases (ltb_ℤ c.torrent_max_uploads (pos 2))) [
  | inl e ↦ rw e refl
  | inr e ↦ rw e refl
]

modify_config-qindex :
    (r : ℕ) (f : TorrentConfig → TorrentConfig) (s : Session)
    → qindex_of (modify_config r f s) r ≡ (f (s.store r).config).qindex
unfolding modify_config set_torrent
modify_config-qindex r f s = rw (==_refl r, qindex_of) refl

pub save-qindex : (r : ℕ) (z : ℤ) (s : Session) → qindex_of (save r (set_qindex r z s)) r ≡ z
unfolding save emit set_qindex
save-qindex r z s =
    let t = set_qindex r z s in
    modify_config-qindex r clamp_uploads t
    ∙ clamp_uploads-qindex (t.store r).config
    ∙ modify_config-qindex r (λ c. record c { qindex = z }) s

save_handle-Local : (w : World) (n r : ℕ) (s : Session) → Local r s (save_handle w n r s)
unfolding save_handle keep_magnet
save_handle-Local w n r s =
    Local-if (is_saved w n r s) (Local-if _ (emit-Local _) Local-refl) (emit-Local _ ▹ emit-Local _)

save_torrent_at-Indexes : (w : World) → Indexes (save_torrent_at w)
unfolding save_torrent_at set_qindex
save_torrent_at-Indexes w = record {
  local = λ i r s.
      modify_config-Local r _ s
      ▹ save-Local r _
      ▹ with_handle-Local w r _ _ (λ n t. save_handle-Local w n r t);
  index = λ i r s.
      (with_handle-SameIndex w r _ _ (λ n t. save_handle-SameIndex w n r t)).same
      ∙ save-qindex r (pos i) s;
}

-- The session is indexed, and each torrent of the queue carries its position.
pub record Saved (s t : Session) : Type 0 where
  pub index : IsIndexed t
  pub queue : t.torrent_queue ≡ s.torrent_queue
  pub numbered : (j q : ℕ) → get_elem? t.torrent_queue j ≡ some q → qindex_of t q ≡ pos j

-- If the map of the queue is right, the loop of `SaveAllTorrent` accesses no position out of
-- range, leaves the queue as it is and its map right, and gives each torrent of the queue its
-- position as its index.
pub save_all_torrent-Saved :
    (w : World) {s : Session} → IsIndexed s → Returns (Saved s) (save_all_torrent w s)
unfolding save_all_torrent IsNumbered
save_all_torrent-Saved w {s} v =
    Returns-map
      (for_queue-Numbered (save_torrent_at-Indexes w) (length s.torrent_queue) 0 v (omega arith)
        (λ j q l. absurd (omega arith)))
      λ t m. record {
        index = Keeps-IsIndexed m.keeps v;
        queue = m.keeps.queue;
        numbered = λ j q e.
            m.numbered j q (ground (arith, get_elem?-lt t.torrent_queue j q e, m.keeps.queue)) e;
      }
