-- ===== src/Session/Index/Duplication.antt =====
-- The exchange of an added torrent with another one puts it in both places.
use bitswash.Prelude.{
  ℕ, some, true, ◌≡◌, ◌≢◌, refl, arith, ltb, ◌<◌, get_elem?, get_elem?-set, set, length, length-set,
  Returns, returns, Returns-map,
}
use bitswash.Session.{Session, set_running, set_queue}
use bitswash.Session.Vector.{write_queue}
use bitswash.Session.Alerts.{overwrite}
use bitswash.Session.Index.{IsIndexed, IsIndexed-distinct}

-- Two positions hold the torrent at `r`.
pub record Duplicated (r index idx : ℕ) (t : Session) : Type 0 where
  pub at_index : get_elem? t.torrent_queue index ≡ some r
  pub at_idx : get_elem? t.torrent_queue idx ≡ some r

overwrite-Duplicated :
    (r index idx : ℕ) (s : Session)
    → index < length s.torrent_queue
    → idx < length s.torrent_queue
    → Returns (Duplicated r index idx) (overwrite r index idx s)
unfolding overwrite write_queue set_queue set_running
overwrite-Duplicated r index idx s l m =
    let q = s.torrent_queue in
    let b : ltb index (length q) ≡ true = ground arith in
    let c : ltb idx (length (set q index r)) ≡ true = ground (arith, length-set q index r) in
    let e : get_elem? (set q index r) index ≡ some r =
      ground (arith, get_elem?-set q index r index) in
    rw (b, overwrite, write_queue, e, c)
      (returns (record {
        at_index =
            ground (arith, length-set q index r, get_elem?-set (set q index r) idx r index, e);
        at_idx = ground (arith, length-set q index r, get_elem?-set (set q index r) idx r idx);
      }))

-- When the alert for an added torrent at position `idx` is to exchange it with the torrent at
-- another position `index` of the queue, both positions hold the added torrent afterwards, and
-- the map is wrong.
pub overwrite-not_IsIndexed :
    (r index idx : ℕ) (s : Session)
    → index < length s.torrent_queue
    → idx < length s.torrent_queue
    → index ≢ idx
    → Returns (λ t. Duplicated r index idx t × (¬ IsIndexed t)) (overwrite r index idx s)
overwrite-not_IsIndexed r index idx s l m n =
    Returns-map (overwrite-Duplicated r index idx s l m)
      λ t d. (d, λ v. n (IsIndexed-distinct index idx r r v d.at_index d.at_idx refl))
