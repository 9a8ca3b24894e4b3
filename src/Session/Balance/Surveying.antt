-- ===== src/Session/Balance/Surveying.antt =====
-- What the first loop of the scheduler collects, and the limit for the whole pass.
use bitswash.Prelude.{
  ℕ, suc, ◌≤◌, ◌<◌, List, [], ◌∷◌, ◌++◌, some, Bool, true, false, not, ◌&&◌, ◌≡◌, ◌≢◌, refl, sym,
  ap, ◌∙◌, arith, if◌then◌else◌, length, get_elem?, subst,
}
use bitswash.Torrent.{TorrentState, is_started, has_info}
use bitswash.LibTorrent.{World}
use bitswash.Session.{Session, handle_valid}
use bitswash.Session.Stopping.{stop_torrent}
use bitswash.Session.Starting.{start_torrent}
use bitswash.Session.Scheduler.{
  Survey, Verdict, judge, halve_connections, survey_started, survey_forced, survey_one, survey,
  balance, check_queue_item,
}
use bitswash.Session.Frame.{Local, Local-refl, stop_torrent-Local, start_torrent-Local, state_of}
use bitswash.Session.Index.{IsIndexed, IsIndexed-distinct}
use bitswash.Session.Index.Loading.{AreDistinct}
use bitswash.Session.Balance.Limit.{Limited, balance-Limited}
use bitswash.Session.Balance.Collecting.{
  halve_connections-Quiet, Collected, Collected-skip, Collected-take,
}

-- One round of the survey, for the torrent at `r`.
record Surveyed (r : ℕ) (rest : List ℕ) (v u : Survey) : Type 0 where
  local : Local r v.session u.session
  collected : Collected rest u

Surveyed-skip :
    {r : ℕ} {rest : List ℕ} {v : Survey} (u : Survey)
    → Collected (r ∷ rest) v
    → Local r v.session u.session
    → u.start_torrents ≡ v.start_torrents
    → Surveyed r rest v u
Surveyed-skip u c l e = record { local = l; collected = Collected-skip c l e }

Surveyed-if :
    {r : ℕ} {rest : List ℕ} {v : Survey} (b : Bool) (u x : Survey)
    → Surveyed r rest v u
    → Surveyed r rest v x
    → Surveyed r rest v (if b then u else x)
Surveyed-if true u x k l = k
Surveyed-if false u x k l = l

module _ (w : World) (r : ℕ) (rest : List ℕ) (v : Survey) (c : Collected (r ∷ rest) v)
    (a : (i q : ℕ)
      → get_elem? rest i ≡ some q
      → (v.session.store r).hash ≢ (v.session.store q).hash) where
  survey_started-Surveyed :
      is_started (state_of v.session r) ≡ true → Surveyed r rest v (survey_started w r v)
  unfolding survey_started
  survey_started-Surveyed z =
      elim (judge w r v.session)
        as (λ y. Surveyed r rest v (elim y as (λ _. Survey) [
          | Verdict.finished ↦ record v { session = stop_torrent w r v.session }
          | Verdict.counted ↦ record v {
            session = halve_connections w r v.session;
            start_torrents = v.start_torrents ++ r ∷ [];
          }
          | Verdict.exempt ↦ record v { session = halve_connections w r v.session }
        ])) [
          | Verdict.finished ↦
              Surveyed-skip (record v { session = stop_torrent w r v.session }) c
                (stop_torrent-Local w r v.session) refl
          | Verdict.counted ↦ record {
            local = (halve_connections-Quiet w r v.session).local;
            collected = Collected-take c (halve_connections-Quiet w r v.session) refl z a;
          }
          | Verdict.exempt ↦
              Surveyed-skip (record v { session = halve_connections w r v.session }) c
                (halve_connections-Quiet w r v.session).local refl
        ]

  survey_forced-Surveyed : Surveyed r rest v (survey_forced w r v)
  unfolding survey_forced
  survey_forced-Surveyed =
      Surveyed-if (not (handle_valid w r v.session) && has_info (v.session.store r))
        (record v { session = start_torrent w true r v.session }) v
        (Surveyed-skip (record v { session = start_torrent w true r v.session }) c
          (start_torrent-Local w true r v.session) refl)
        (Surveyed-skip v c Local-refl refl)

  survey_one-Surveyed : Surveyed r rest v (survey_one w r v)
  unfolding survey_one
  survey_one-Surveyed = go (state_of v.session r) refl
    where
      go :
          (z : TorrentState)
          → state_of v.session r ≡ z
          → Surveyed r rest v (elim z as (λ _. Survey) [
            | TorrentState.start ↦ survey_started w r v
            | TorrentState.force_start ↦ survey_forced w r v
            | TorrentState.queue ↦ record v { queue_torrents = v.queue_torrents ++ r ∷ [] }
            | _ ↦ v
          ])
      go TorrentState.start e = survey_started-Surveyed (ap is_started e)
      go TorrentState.force_start e = survey_forced-Surveyed
      go TorrentState.queue e =
          Surveyed-skip (record v { queue_torrents = v.queue_torrents ++ r ∷ [] }) c Local-refl refl
      go TorrentState.stop e = Surveyed-skip v c Local-refl refl
      go TorrentState.pause e = Surveyed-skip v c Local-refl refl

record Finished (v u : Survey) : Type 0 where
  config : u.session.config ≡ v.session.config
  collected : Collected [] u

survey-Finished :
    (w : World) (rs : List ℕ) (v : Survey)
    → AreDistinct rs v.session
    → Collected rs v
    → Finished v (survey w rs v)
unfolding survey
survey-Finished w [] v d c = record { config = refl; collected = c }
survey-Finished w (r ∷ rs) v d c =
    let one =
      survey_one-Surveyed w r rs v c
        (λ i q e h. absurd (omega (arith, d 0 (suc i) r q refl e h))) in
    let k = one.local.keeps in
    let rest =
      survey-Finished w rs (survey_one w r v)
        (λ i j q p e f h.
          omega (arith, d (suc i) (suc j) q p e f (sym (k.hashes q) ∙ h ∙ k.hashes p)))
        one.collected in
    record { config = rest.config ∙ one.local.config; collected = rest.collected }

-- The survey of a session.
abbrev pub survey_of : World → Session → Survey
survey_of w s =
    survey w s.torrent_queue (record { session = s; start_torrents = []; queue_torrents = [] })

-- If the map of the queue is right, the first loop of `CheckQueueItem` counts more torrents as
-- started than the limit allows, and none of these from the limit on is just being added after
-- that loop, then after the pass those counted before the limit are in the state `start` or
-- `force_start`, and all others counted are in the state `queue`.
pub check_queue_item-Limited :
    (w : World) (s : Session)
    → IsIndexed s
    → s.config.max_start < length (survey_of w s).start_torrents
    → ((k r : ℕ)
        → get_elem? (survey_of w s).start_torrents k ≡ some r
        → s.config.max_start ≤ k
        → (survey_of w s).session.queue_torrent_set ((survey_of w s).session.store r).hash ≡ false)
    → Limited s.config.max_start (survey_of w s).start_torrents (check_queue_item w s)
unfolding check_queue_item
check_queue_item-Limited w s v o q =
    let start : Survey = record { session = s; start_torrents = []; queue_torrents = [] } in
    let f =
      survey-Finished w s.torrent_queue start (λ i j r p e d h. IsIndexed-distinct i j r p v e d h)
        (record {
          started = λ k r e. absurd (ground (arith, e));
          apart = λ i j r p e d h. absurd (ground (arith, e));
          ahead = λ k i r p e d h. absurd (ground (arith, e));
        }) in
    let m = ap (λ c. c.max_start) f.config in
    subst (λ n. Limited n (survey_of w s).start_torrents (balance w (survey_of w s))) m
      (balance-Limited w (survey_of w s) (rw m o) f.collected.apart f.collected.started
        (λ k r e l. q k r e (rw⁻¹ m l)))
