-- ===== src/TorrentFile/Recovered.antt =====
-- The texts of priorities and trackers are read back as what was written
-- (src/torrentconfig.cpp).
use bitswash.Prelude.{
  subst, sym, ℕ, ℤ, pos, ◌%◌, ◌<◌, ◌++◌, List, [], ◌∷◌, map, ◌≡◌, ◌≢◌, refl, inl, inr, ap, ◌∙◌,
  arith,
}
use mathlib.Core.List.{cons-ne-nil}
use bitswash.Wx.{
  Lacks-append, Chars, All, Lacks, comma, bar, semicolon, WxText, IsText, terminated, Nonempty,
  tokens-terminated, before_last-terminated, before_last-IsPlain, IsDigits-IsPlain, dollar,
  backslash, IsDigits-Lacks, IsPlain,
}
use bitswash.Settings.Reading.{uint32}
use bitswash.TorrentFile.Codec.{
  StoredTracker, byte_of, valid_priority, priorities_text, priority_of, priorities_of, tracker_of,
  trackers_of, append_trackers, priority_texts, tracker_text, append_priorities-terminated,
  append_trackers-terminated,
}

-- A tracker that the text can keep: its URL holds no separator and no mark of an environment
-- variable, and its tier is a byte.
pub record IsKept (t : StoredTracker) : Type 0 where
  pub no_bar : Lacks bar t.url
  pub no_semicolon : Lacks semicolon t.url
  pub no_variable : IsPlain t.url
  pub tier_fits : t.tier < 256

append-cons-ne-nil : (xs ys : Chars) (c : ℕ) → xs ++ c ∷ ys ≢ []
append-cons-ne-nil [] ys c = cons-ne-nil c ys
append-cons-ne-nil (x ∷ xs) ys c = cons-ne-nil x (xs ++ c ∷ ys)

module _ (w : WxText) (text : IsText w) where
  byte_of-print : (n : ℕ) → n < 256 → byte_of (w.atoi (w.print (pos n))) ≡ n
  unfolding byte_of uint32
  byte_of-print n h =
      ap (λ (z : ℤ). uint32 z % 256) (text.atoi-print (pos n) (omega arith, omega arith))
      ∙ omega arith

  priority_texts-Nonempty : (ps : List ℕ) → Nonempty (priority_texts w ps)
  unfolding priority_texts
  priority_texts-Nonempty [] = tt
  priority_texts-Nonempty (p ∷ ps) = (text.print-ne-nil (pos p), priority_texts-Nonempty ps)

  priority_texts-Lacks : (ps : List ℕ) → All (Lacks comma) (priority_texts w ps)
  unfolding priority_texts
  priority_texts-Lacks [] = tt
  priority_texts-Lacks (p ∷ ps) = (
    IsDigits-Lacks comma _ (omega arith) (inl (omega arith)) (text.print-IsDigits (pos p)),
    priority_texts-Lacks ps,
  )

  map-priority_of :
      (ps : List ℕ)
      → All (λ (p : ℕ). p < 256) ps
      → map (priority_of w) (priority_texts w ps) ≡ map valid_priority ps
  unfolding priority_texts priority_of
  map-priority_of [] h = refl
  map-priority_of (p ∷ ps) (h, hs) =
      λ i. valid_priority (byte_of-print p h i) ∷ map-priority_of ps hs i

  pub priorities_of-priorities_text :
      (ps : List ℕ)
      → All (λ (p : ℕ). p < 256) ps
      → priorities_of w (priorities_text w ps) ≡ map valid_priority ps
  unfolding priorities_of priorities_text
  priorities_of-priorities_text ps h =
      ap (λ (t : Chars). map (priority_of w) (w.tokens comma (w.before_last comma t)))
        (append_priorities-terminated w [] ps)
      ∙ ap (map (priority_of w)) (
          tokens-terminated w text comma (priority_texts w ps) (priority_texts-Nonempty ps)
            (priority_texts-Lacks ps))
      ∙ map-priority_of ps h

  tracker_text-ne-nil : (t : StoredTracker) → tracker_text w t ≢ []
  unfolding tracker_text
  tracker_text-ne-nil t = append-cons-ne-nil t.url (w.print (pos t.tier)) bar

  tracker_texts-Nonempty : (ts : List StoredTracker) → Nonempty (map (tracker_text w) ts)
  tracker_texts-Nonempty [] = tt
  tracker_texts-Nonempty (t ∷ ts) = (tracker_text-ne-nil t, tracker_texts-Nonempty ts)

  tracker_texts-Lacks :
      (ts : List StoredTracker) → All IsKept ts → All (Lacks semicolon) (map (tracker_text w) ts)
  unfolding tracker_text
  tracker_texts-Lacks [] h = tt
  tracker_texts-Lacks (t ∷ ts) (h, hs) = (
    Lacks-append semicolon t.url _ h.no_semicolon (
      omega arith,
      IsDigits-Lacks semicolon _ (omega arith) (inr (omega arith))
          (text.print-IsDigits (pos t.tier)),
    ),
    tracker_texts-Lacks ts hs,
  )

  tracker_of-tracker_text : (t : StoredTracker) → IsKept t → tracker_of w (tracker_text w t) ≡ t
  unfolding tracker_of tracker_text
  tracker_of-tracker_text t h = λ i. record {
    url = text.before_first_sep bar t.url (w.print (pos t.tier)) h.no_bar i;
    tier =
        (ap (λ (c : Chars). byte_of (w.atoi c))
              (text.after_first_sep bar t.url (w.print (pos t.tier)) h.no_bar)
            ∙ byte_of-print t.tier h.tier_fits)
          i;
  }

  map-tracker_of :
      (ts : List StoredTracker) → All IsKept ts → map (tracker_of w) (map (tracker_text w) ts) ≡ ts
  map-tracker_of [] h = refl
  map-tracker_of (t ∷ ts) (h, hs) = λ i. tracker_of-tracker_text t h i ∷ map-tracker_of ts hs i

  trackers_of-ne-nil :
      (text : Chars) → text ≢ [] → trackers_of w text ≡ map (tracker_of w) (w.tokens semicolon text)
  unfolding trackers_of
  trackers_of-ne-nil [] h = absurd (h refl)
  trackers_of-ne-nil (c ∷ cs) h = refl

  pub trackers_of-append_trackers :
      (t : StoredTracker) (ts : List StoredTracker)
      → All IsKept (t ∷ ts)
      → trackers_of w (w.before_last semicolon (append_trackers w [] (t ∷ ts))) ≡ t ∷ ts
  trackers_of-append_trackers t ts h =
      let line = terminated semicolon (map (tracker_text w) (t ∷ ts)) in
      ap (λ (c : Chars). trackers_of w (w.before_last semicolon c))
        (append_trackers-terminated w [] (t ∷ ts))
      ∙ trackers_of-ne-nil (w.before_last semicolon line) (
          before_last-terminated w text semicolon (tracker_text w t) (map (tracker_text w) ts)
            (tracker_text-ne-nil t))
      ∙ ap (map (tracker_of w)) (
          tokens-terminated w text semicolon (map (tracker_text w) (t ∷ ts))
            (tracker_texts-Nonempty (t ∷ ts)) (tracker_texts-Lacks (t ∷ ts) h))
      ∙ map-tracker_of (t ∷ ts) h

  priority_texts-IsPlain : (ps : List ℕ) → All IsPlain (priority_texts w ps)
  unfolding priority_texts
  priority_texts-IsPlain [] = tt
  priority_texts-IsPlain (p ∷ ps) =
      (IsDigits-IsPlain _ (text.print-IsDigits (pos p)), priority_texts-IsPlain ps)

  pub priorities_text-IsPlain : (ps : List ℕ) → IsPlain (priorities_text w ps)
  unfolding priorities_text
  priorities_text-IsPlain ps =
      subst (λ (t : Chars). IsPlain (w.before_last comma t))
        (sym (append_priorities-terminated w [] ps))
        (before_last-IsPlain w text comma (priority_texts w ps) (omega arith) (omega arith)
          (priority_texts-IsPlain ps))

  tracker_text-IsPlain : (t : StoredTracker) → IsKept t → IsPlain (tracker_text w t)
  unfolding tracker_text
  tracker_text-IsPlain t h =
      let tier = IsDigits-IsPlain _ (text.print-IsDigits (pos t.tier)) in
      (
        Lacks-append dollar t.url _ h.no_variable.0 (omega arith, tier.0),
        Lacks-append backslash t.url _ h.no_variable.1 (omega arith, tier.1),
      )

  tracker_texts-IsPlain :
      (ts : List StoredTracker) → All IsKept ts → All IsPlain (map (tracker_text w) ts)
  tracker_texts-IsPlain [] h = tt
  tracker_texts-IsPlain (t ∷ ts) (h, hs) = (tracker_text-IsPlain t h, tracker_texts-IsPlain ts hs)

  pub append_trackers-IsPlain :
      (ts : List StoredTracker)
      → All IsKept ts
      → IsPlain (w.before_last semicolon (append_trackers w [] ts))
  append_trackers-IsPlain ts h =
      subst (λ (t : Chars). IsPlain (w.before_last semicolon t))
        (sym (append_trackers-terminated w [] ts))
        (before_last-IsPlain w text semicolon (map (tracker_text w) ts) (omega arith) (omega arith)
          (tracker_texts-IsPlain ts h))
