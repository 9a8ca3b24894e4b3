-- ===== src/Session/Closing/Waiting.antt =====
-- `SaveAllTorrent` waits for as many answers as it has asked for, and no less.
use bitswash.Prelude.{
  ℕ, zero, suc, ◌+◌, ◌-◌, List, [], ◌∷◌, Option, none, some, Bool, true, false, length, get_elem?,
  Returns, returns, leb, not, pos, ◌&&◌, ◌>>=◌, if◌then◌else◌, ◌≡◌, refl, sym, ap, ◌∙◌, arith,
  Option-cases, inl, inr, Bool-cases,
}
use bitswash.Session.Index.{IsIndexed}
use bitswash.Session.Index.Numbering.{save_all_torrent-Saved}
use bitswash.LibTorrent.{World, Effect, History, save_resume_data}
use bitswash.Session.{Session, set_torrent, save, set_qindex, emit, modify_config}
use bitswash.Session.Adding.{is_empty}
use bitswash.Session.Stopping.{with_handle}
use bitswash.Session.Loading.{is_saved, save_torrent_at, save_all_torrent, save_handle, keep_magnet}
use bitswash.Session.Vector.{for_queue}
use bitswash.Session.Closing.{
  Answer, paused, failed, other, saved, requests, requests_of, save_counting, take_answer,
  take_answers, wait_saved,
}

-- How many times a history asks for resume data.
abbrev one_save : Effect → ℕ
one_save (save_resume_data n) = 1
one_save _ = 0

unfoldable pub saves : History → ℕ
saves [] = 0
saves (e ∷ h) = one_save e + saves h

-- The answers among alerts.
abbrev answer : Answer → ℕ
answer paused = 0
answer failed = 1
answer (saved n h) = 1
answer other = 0

unfoldable pub answers : List Answer → ℕ
answers [] = 0
answers (a ∷ more) = answer a + answers more

unfoldable pub all_answers : List (Option (List Answer)) → ℕ
all_answers [] = 0
all_answers (none ∷ rounds) = all_answers rounds
all_answers (some more ∷ rounds) = answers more + all_answers rounds

abbrev pub has_ended : Option Session → Bool
has_ended none = false
has_ended (some s) = true

take_answer-count :
    (w : World) (a : Answer) (c : ℕ) (s : Session) → (take_answer w a c s).0 ≡ c - answer a
unfolding take_answer
take_answer-count w paused c s = omega arith
take_answer-count w failed c s = refl
take_answer-count w other c s = omega arith
take_answer-count w (saved n h) c s = refl

take_answers-count :
    (w : World) (more : List Answer) (c : ℕ) (s : Session)
    → (take_answers w more c s).0 ≡ c - answers more
unfolding take_answers answers
take_answers-count w [] c s = omega arith
take_answers-count w (a ∷ more) c s = omega (
  arith,
  take_answers-count w more (take_answer w a c s).0 (take_answer w a c s).1,
  take_answer-count w a c s,
)

-- The wait ends within the rounds exactly where they bring the answers it waits for.
wait_saved-ended :
    (w : World) (rounds : List (Option (List Answer))) (c : ℕ) (s : Session)
    → has_ended (wait_saved w rounds c s) ≡ leb c (all_answers rounds)
unfolding wait_saved all_answers
wait_saved-ended w [] zero s = refl
wait_saved-ended w (none ∷ rounds) zero s = ground arith
wait_saved-ended w (some more ∷ rounds) zero s = ground arith
wait_saved-ended w [] (suc c) s = ground arith
wait_saved-ended w (none ∷ rounds) (suc c) s = wait_saved-ended w rounds (suc c) s
wait_saved-ended w (some more ∷ rounds) (suc c) s = ground (
  arith,
  wait_saved-ended w rounds (take_answers w more (suc c) s).0 (take_answers w more (suc c) s).1,
  take_answers-count w more (suc c) s,
)

saves-keep_magnet :
    (w : World) (r n : ℕ) (s : Session) → saves (keep_magnet w n r s).history ≡ saves s.history
unfolding keep_magnet saves emit
saves-keep_magnet w r n s =
    elim (Bool-cases (
      not (is_empty (s.store r).config.magnet_uri)
      && not (w.handle_status s.history n).has_metadata)) [
        | inl e ↦ rw e (omega arith)
        | inr e ↦ rw e refl
      ]

saves-save_handle :
    (w : World) (r n : ℕ) (s : Session)
    → saves (save_handle w n r s).history ≡ (if is_saved w n r s then 0 else 1) + saves s.history
unfolding save_handle saves emit
saves-save_handle w r n s = elim (Bool-cases (is_saved w n r s)) [
  | inl e ↦ rw e (saves-keep_magnet w r n s ∙ omega arith)
  | inr e ↦ rw e (omega arith)
]

-- The handle part of a round, for the handle that the torrent has.
saves-with_handle :
    (w : World) (r : ℕ) (s : Session)
    → saves (with_handle w r (λ n. save_handle w n r) s).history
      ≡ requests_of w r (s.store r).handle s + saves s.history
unfolding with_handle requests_of
saves-with_handle w r s = elim (Option-cases (s.store r).handle) [
  | inl e ↦ rw (e, with_handle) (omega arith)
  | inr (n, e) ↦ rw (e, with_handle) (valid_case n)
]
  where
    valid_case :
        (n : ℕ)
        → saves (if w.handle_is_valid s.history n then save_handle w n r s else s).history
          ≡ (if w.handle_is_valid s.history n then if is_saved w n r s then 0 else 1 else 0)
            + saves s.history
    valid_case n = elim (Bool-cases (w.handle_is_valid s.history n)) [
      | inl e ↦ rw e (saves-save_handle w r n s)
      | inr e ↦ rw e (omega arith)
    ]

saves-save :
    (i r : ℕ) (s : Session) → saves (save r (set_qindex r (pos i) s)).history ≡ saves s.history
unfolding save set_qindex modify_config set_torrent saves emit
saves-save i r s = omega arith

saves-save_torrent_at :
    (w : World) (i r : ℕ) (s : Session)
    → saves (save_torrent_at w i r s).history ≡ requests w i r s + saves s.history
unfolding save_torrent_at requests
saves-save_torrent_at w i r s =
    saves-with_handle w r (save r (set_qindex r (pos i) s))
    ∙ ap
        (λ (n : ℕ).
          requests_of w r ((save r (set_qindex r (pos i) s)).store r).handle
            (save r (set_qindex r (pos i) s))
          + n)
        (saves-save i r s)

-- The counter is the number of requests.
save_counting-saves :
    (w : World) (n i c : ℕ) (s t : Session) (d : ℕ)
    → save_counting w n i c s ≡ some (d, t)
    → saves t.history + c ≡ saves s.history + d
unfolding save_counting
save_counting-saves w zero i c s t d e = ground (arith, e)
save_counting-saves w (suc n) i c s t d e = elim (Option-cases (get_elem? s.torrent_queue i)) [
  | inl q ↦ cc (here q)
  | inr (r, q) ↦ omega (
    arith,
    save_counting-saves w n (i + 1) (c + requests w i r s) (save_torrent_at w i r s) t d
        (sym (there r q) ∙ e),
    saves-save_torrent_at w i r s,
  )
]
  where
    here : get_elem? s.torrent_queue i ≡ none → save_counting w (suc n) i c s ≡ none
    here q = rw (q, save_counting) refl

    there :
        (r : ℕ)
        → get_elem? s.torrent_queue i ≡ some r
        → save_counting w (suc n) i c s
          ≡ save_counting w n (i + 1) (c + requests w i r s) (save_torrent_at w i r s)
    there r q = rw (q, save_counting) refl

-- With its counter the loop does what it does without.
save_counting-for_queue :
    (w : World) (n i c : ℕ) (s : Session)
    → (save_counting w n i c s >>= λ (p : ℕ × Session). some p.1)
      ≡ for_queue (save_torrent_at w) n i s
unfolding save_counting for_queue
save_counting-for_queue w zero i c s = refl
save_counting-for_queue w (suc n) i c s = elim (Option-cases (get_elem? s.torrent_queue i)) [
  | inl q ↦ rw (q, save_counting, for_queue) refl
  | inr (r, q) ↦
      rw (q, save_counting, for_queue)
        (save_counting-for_queue w n (i + 1) (c + requests w i r s) (save_torrent_at w i r s))
]

-- What the first loop leaves: the session that `save_all_torrent` gives, a counter of the requests
-- that were made, and a wait that ends exactly with that many answers.
pub record Awaited (w : World) (s : Session) (p : ℕ × Session) : Type 0 where
  pub same_end : save_all_torrent w s ≡ some p.1
  pub counted : saves p.1.history ≡ saves s.history + p.0
  pub waits :
      (rounds : List (Option (List Answer)))
      → has_ended (wait_saved w rounds p.0 p.1) ≡ leb p.0 (all_answers rounds)

-- If the map of the queue is right, the first loop of `SaveAllTorrent` ends, in the session that
-- it ends in without its counter; the counter is the number of requests to save data that it has
-- sent; and the wait that follows ends if and only if the alerts that are popped in its rounds
-- hold at least that many answers, whatever time-outs are between.
pub save_counting-Awaited :
    (w : World) {s : Session}
    → IsIndexed s
    → Returns (Awaited w s) (save_counting w (length s.torrent_queue) 0 0 s)
unfolding save_all_torrent
save_counting-Awaited w {s} v =
    let loop = save_counting-for_queue w (length s.torrent_queue) 0 0 s in
    elim (Option-cases (save_counting w (length s.torrent_queue) 0 0 s)) [
      | inl e ↦ absurd (
          not_none (save_all_torrent-Saved w v)
            (sym loop ∙ ap (λ (o : Option (ℕ × Session)). o >>= λ (p : ℕ × Session). some p.1) e))
      | inr ((c, t), e) ↦ rw e (
          returns (record {
            same_end =
                sym loop ∙ ap (λ (o : Option (ℕ × Session)). o >>= λ (p : ℕ × Session). some p.1) e;
            counted = omega (arith, save_counting-saves w (length s.torrent_queue) 0 0 s t c e);
            waits = λ rounds. wait_saved-ended w rounds c t;
          }))
    ]
  where
    not_none : {P : Session → Type 0} {o : Option Session} → Returns P o → o ≡ none → ⊥
    not_none (returns h) e = cc
