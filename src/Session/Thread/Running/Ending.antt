-- ===== src/Session/Thread/Running/Ending.antt =====
-- The session's thread ends when it is told to (src/bittorrentsession.cpp).
use bitswash.Prelude.{
  false, ℕ, List, [], ◌∷◌, ◌++◌, Option, none, some, Bool, true, ◌||◌, ◌≡◌, refl, Returns, returns,
  Returns-bind, Returns-if,
}
use bitswash.LibTorrent.{World}
use bitswash.Wx.{All}
use bitswash.Session.{Session}
use bitswash.Session.Index.{IsIndexed}
use bitswash.Session.Index.Loading.{AreDistinct, restore_queue-IsIndexed}
use bitswash.Session.Scanning.{
  TorrentSource, UriLine, scan_files, load_lines, scan_torrents_directory,
}
use bitswash.Session.Thread.{Event, Thread, Input, receive, is_due, check_if, entry_round}
use bitswash.Session.Scheduling.{check_queue_item-IsIndexed}
use bitswash.Session.Thread.Running.{Round, entry_loop, entry}

-- No alerts.
abbrev pub IsQuiet : Option Event → Type 0
IsQuiet none = Unit {0}
IsQuiet (some Event.queue_update) = Unit {0}
IsQuiet (some (Event.alert a)) = ⊥

check_if-IsIndexed :
    (w : World) (b : Bool) (i : Input) (t : Thread)
    → IsIndexed t.session
    → IsIndexed (check_if w b i t t.session).session
unfolding check_if
check_if-IsIndexed w true i t v = check_queue_item-IsIndexed w t.session v
check_if-IsIndexed w false i t v = v

pub receive-quiet :
    (w : World) (o : Option Event) (s : Session) → IsQuiet o → receive w o s ≡ some s
unfolding receive
receive-quiet w none s q = refl
receive-quiet w (some Event.queue_update) s q = refl
receive-quiet w (some (Event.alert a)) s q = absurd q

-- The loop is in the form that `Ended` says: it has ended, with the map of the queue right.
abbrev pub Ended : Bool × Thread → Type 0
Ended p = (p.0 ≡ true) × IsIndexed p.1.session

module _ (w : World) where
  entry_round-quiet :
      (i : Input) (t : Thread)
      → IsQuiet i.received
      → IsIndexed t.session
      → Returns (λ (u : Thread). IsIndexed u.session) (entry_round w i t)
  unfolding entry_round
  entry_round-quiet i t q v =
      rw (receive-quiet w i.received t.session q)
        (returns (check_if-IsIndexed w (is_due i t) i t v))

  entry_loop-Ended :
      (rs : List Round) (r : Round) (t : Thread)
      → All (λ (x : Round). IsQuiet x.input.received) rs
      → IsQuiet r.input.received
      → r.is_destroyed ≡ true
      → IsIndexed t.session
      → Returns Ended (entry_loop w (rs ++ r ∷ []) t)
  unfolding entry_loop
  entry_loop-Ended [] r t qs q e v =
      Returns-bind (entry_round-quiet r.input t q v) λ u x. rw e (returns (refl, x))
  entry_loop-Ended (y ∷ rs) r t (p, qs) q e v =
      Returns-bind (entry_round-quiet y.input t p v) λ u x.
        Returns-if (y.is_destroyed || y.is_broken) (returns (refl, x))
          (λ _. entry_loop-Ended rs r u qs q e x)

  -- Where no two places of the sorted queue that the scan of the directory has built have the
  -- same hash, and the rounds of the thread receive no alerts, the last of them telling the
  -- thread to end, `Entry` accesses nothing out of range and ends its loop, with the map of the
  -- queue right.
  pub entry-Ended :
      (files : List TorrentSource) (lines : List UriLine) (sort : Session → List ℕ → List ℕ)
      (now : ℕ) (rs : List Round) (r : Round) (s : Session)
      → (let s1 = load_lines w lines (scan_files files s) in
          AreDistinct (sort s1 s1.torrent_queue) s1)
      → All (λ (x : Round). IsQuiet x.input.received) rs
      → IsQuiet r.input.received
      → r.is_destroyed ≡ true
      → Returns Ended (entry w (some files) lines sort now (rs ++ r ∷ []) s)
  unfolding entry scan_torrents_directory
  entry-Ended files lines sort now rs r s distinct qs q e =
      Returns-bind (restore_queue-IsIndexed w _ _ distinct) λ s1 v. entry_loop-Ended rs r _ qs q e v
