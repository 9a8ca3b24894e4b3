-- ===== src/Session/Tests/Facts.antt =====
-- What holds of the session of three torrents.
use bitswash.Prelude.{
  ℕ, length, ◌<◌, ◌≤◌, zero, suc, pos, negsuc, [], ◌∷◌, none, some, false, ◌≡◌, refl, sym, ap, ◌∙◌,
  inl, inr, arith, Bool-cases, ◌==◌, get_elem?,
}
use bitswash.Session.{find_torrent_by_hash}
use bitswash.Session.Index.{IsIndexed, IsIndexed-distinct}
use bitswash.Session.Index.Operations.{IndicesInRange}
use bitswash.Session.Index.Arrival.{ButLast}
use bitswash.Session.Index.Loading.{IsFresh, AreDistinct}
use bitswash.Session.Moving.{bottom_qindex}
use bitswash.Session.Balance.Surveying.{survey_of}
use bitswash.Session.Scheduler.{
  survey, survey_one, survey_started, survey_forced, judge, status_of, halve_connections,
}
use bitswash.Session.Frame.{HasPriorities}
use bitswash.Session.Tests.{world, session, stale, surveyed}

pub session-indexed :
    (i r : ℕ)
    → get_elem? session.torrent_queue i ≡ some r
    → session.running_torrent_map (session.store r).hash ≡ some i
session-indexed zero r e = ground (arith, e)
session-indexed (suc zero) r e = ground (arith, e)
session-indexed (suc (suc zero)) r e = ground (arith, e)
session-indexed (suc (suc (suc i))) r e = ground (arith, e)

pub session-found :
    (h i : ℕ)
    → session.running_torrent_map h ≡ some i
    → (r : ℕ) × (get_elem? session.torrent_queue i ≡ some r) × ((session.store r).hash ≡ h)
session-found h i e = elim (Bool-cases (h == 10)) [
  | inl x ↦ at 0 (ground (arith, e, x)) (ground (arith, x)) refl
  | inr x ↦ elim (Bool-cases (h == 20)) [
    | inl y ↦ at 1 (ground (arith, e, x, y)) (ground (arith, y)) refl
    | inr y ↦ elim (Bool-cases (h == 30)) [
      | inl z ↦ at 2 (ground (arith, e, x, y, z)) (ground (arith, z)) refl
      | inr z ↦ absurd (ground (arith, e, x, y, z))
    ]
  ]
]
  where
    at :
        (j : ℕ)
        → j ≡ i
        → (session.store j).hash ≡ h
        → get_elem? session.torrent_queue j ≡ some j
        → (r : ℕ) × (get_elem? session.torrent_queue i ≡ some r) × ((session.store r).hash ≡ h)
    at j x y z = (j, ap (get_elem? session.torrent_queue) (sym x) ∙ z, y)

pub session-IsIndexed : IsIndexed session
session-IsIndexed = record { indexed = session-indexed; found = session-found }

pub session-priorities : HasPriorities session 1
session-priorities i e h = ground (arith, e)

pub session-IndicesInRange : IndicesInRange session
session-IndicesInRange zero q b e d = ground (arith, e, d)
session-IndicesInRange (suc zero) q b e d = ground (arith, e, d)
session-IndicesInRange (suc (suc zero)) q b e d = ground (arith, e, d)
session-IndicesInRange (suc (suc (suc i))) q b e d = ground (arith, e, d)

pub session-ButLast : ButLast session session.torrent_queue
session-ButLast zero q e = inl (ground (arith, e))
session-ButLast (suc zero) q e = inl (ground (arith, e))
session-ButLast (suc (suc zero)) q e = inl (ground (arith, e))
session-ButLast (suc (suc (suc i))) q e = absurd (ground (arith, e))

pub session-IsFresh : IsFresh 3 session
session-IsFresh zero q e = ground (arith, e)
session-IsFresh (suc zero) q e = ground (arith, e)
session-IsFresh (suc (suc zero)) q e = ground (arith, e)
session-IsFresh (suc (suc (suc i))) q e = ground (arith, e)

pub session-AreDistinct : AreDistinct session.torrent_queue session
session-AreDistinct i j r p e d h = IsIndexed-distinct i j r p session-IsIndexed e d h

pub found :
    (r i : ℕ)
    → session.running_torrent_map (session.store r).hash ≡ some i
    → find_torrent_by_hash (session.store r).hash session ≡ some i
unfolding find_torrent_by_hash
found r i e = e

pub stale-found : find_torrent_by_hash 20 stale ≡ some 0
unfolding find_torrent_by_hash
stale-found = refl

pub stale-bottom : bottom_qindex stale (negsuc 0) (2 ∷ []) ≡ pos 2
unfolding bottom_qindex
stale-bottom = refl

pub not_found : find_torrent_by_hash 40 session ≡ none
unfolding find_torrent_by_hash
not_found = refl

pub survey-session : survey_of world session ≡ surveyed
unfolding survey survey_one survey_started survey_forced judge status_of halve_connections
survey-session = refl

pub surveyed-over : 1 < length (survey_of world session).start_torrents
surveyed-over = rw survey-session (omega arith)

pub surveyed-settled :
    (k r : ℕ)
    → get_elem? (survey_of world session).start_torrents k ≡ some r
    → 1 ≤ k
    → (survey_of world session).session.queue_torrent_set
        ((survey_of world session).session.store r).hash
      ≡ false
surveyed-settled k r e l = rw survey-session refl
