-- ===== src/Session/Closing.antt =====
-- The rest of `SaveAllTorrent` and `OnExit` (src/bittorrentsession.cpp): the number of answers to wait
-- for, the wait, the file of magnet URIs, and the end of the session. Left out: the state of
-- the DHT, which goes to a file of its own, and what happens to libtorrent's session and to the
-- events that nobody reads any more.
pub mod Waiting
use bitswash.Prelude.{
  ℕ, zero, suc, ◌+◌, ◌-◌, List, [], ◌∷◌, ◌++◌, Option, none, some, Bool, true, false, not, length,
  get_elem?, ltb, if◌then◌else◌, ◌>>=◌, ◌|>◌, String, pos,
}
use bitswash.LibTorrent.{World, Effect, History, save_resume_data, keep_magnet_uri}
use bitswash.Session.{Session, save, set_qindex}
use bitswash.Session.Alerts.{save_torrent_resume_data}
use bitswash.Session.Loading.{is_saved, save_torrent_at}

-- What a handle adds to `num_outstanding_resume_data` in the round of its torrent.
unfoldable pub requests_of : World → ℕ → Option ℕ → Session → ℕ
requests_of w r none s = 0
requests_of w r (some n) s =
    if w.handle_is_valid s.history n then if is_saved w n r s then 0 else 1 else 0

unfoldable pub requests : World → ℕ → ℕ → Session → ℕ
requests w i r s =
    let s1 = s |> set_qindex r (pos i) |> save r in requests_of w r (s1.store r).handle s1

-- The first loop of `SaveAllTorrent` with its counter.
unfoldable pub save_counting : World → ℕ → ℕ → ℕ → Session → Option (ℕ × Session)
save_counting w zero i c s = some (c, s)
save_counting w (suc n) i c s = elim (get_elem? s.torrent_queue i) [
  | none ↦ none
  | some r ↦ save_counting w n (i + 1) (c + requests w i r s) (save_torrent_at w i r s)
]

-- What the wait sees of an alert: a torrent is paused, its data could not be saved, or its data,
-- with its handle and hash; or something else.
pub data Answer : Type 0 where
  paused failed other : Answer
  saved : ℕ → ℕ → Answer

-- The counter is an `int` that is tested for being above 0 only, so that 0 stands for what is below.
unfoldable pub take_answer : World → Answer → ℕ → Session → ℕ × Session
take_answer w paused c s = (c, s)
take_answer w failed c s = (c - 1, s)
take_answer w (saved n h) c s = (c - 1, save_torrent_resume_data w n h s)
take_answer w other c s = (c, s)

unfoldable pub take_answers : World → List Answer → ℕ → Session → ℕ × Session
take_answers w [] c s = (c, s)
take_answers w (a ∷ more) c s = let (c', s') = take_answer w a c s in take_answers w more c' s'

-- The wait for alerts. Each round is a time-out, `none`, or the alerts that are popped. The result
-- is the session where the loop ends, or `none` where it still waits after these rounds.
unfoldable pub wait_saved : World → List (Option (List Answer)) → ℕ → Session → Option Session
wait_saved w rounds zero s = some s
wait_saved w [] (suc c) s = none
wait_saved w (none ∷ rounds) (suc c) s = wait_saved w rounds (suc c) s
wait_saved w (some more ∷ rounds) (suc c) s =
    let (c', s') = take_answers w more (suc c) s in wait_saved w rounds c' s'

-- The magnet URIs that the first loop has collected, in their order.
unfoldable pub kept_uris : History → List String
kept_uris [] = []
kept_uris (keep_magnet_uri u ∷ h) = kept_uris h ++ u ∷ []
kept_uris (e ∷ h) = kept_uris h

-- The file of magnet URIs. Where there is none to keep, the lines are cleared in memory only, as
-- nothing is written.
unfoldable pub write_magnets : Bool → List String → Option (List String) → Option (List String)
write_magnets opened [] file = file
write_magnets opened (u ∷ us) file = if opened then some (u ∷ us) else file

-- `OnExit`: after the wait the queue is cleared. `rounds` is what the wait sees, and `file` has the
-- lines of the file of magnet URIs before.
unfoldable pub on_exit :
    World
    → List (Option (List Answer))
    → Bool
    → Option (List String)
    → Session
    → Option (Session × Option (List String))
on_exit w rounds opened file s = elim (save_counting w (length s.torrent_queue) 0 0 s) [
  | none ↦ none
  | some (c, s1) ↦ wait_saved w rounds c s1 >>= λ s2.
      some (record s2 { torrent_queue = [] }, write_magnets opened (kept_uris s1.history) file)
]
