-- ===== src/Magnet/Settled.antt =====
-- The URL of a `MagnetUri` (src/magneturi.cpp) is a form that is kept when it is read again.
use bitswash.Prelude.{
  List, [], ◌∷◌, ◌++◌, Bool, true, false, if◌then◌else◌, drop, ◌≡◌, refl, sym, ap, ◌∙◌, ◌⊎◌, arith,
  inl, inr,
}
use bitswash.Wx.{Chars, codes}
use bitswash.Magnet.{
  take, starts_with, scheme, link_of_parts, is_bare_hash, bc_link_to_magnet, magnet_url,
}

module _ (lower : Chars → Chars) (decode : Chars → Chars) (split : Chars → List Chars) where
  -- A text with the scheme in front.
  abbrev HasScheme : Chars → Type 0
  HasScheme u = (rest : Chars) × (u ≡ scheme ++ rest)

  scheme-no_hash : (rest : Chars) → is_bare_hash (scheme ++ rest) ≡ false
  unfolding is_bare_hash
  scheme-no_hash rest = ground arith

  either : {A : Type 0} (b : Bool) (x : A) → (if b then x else x) ≡ x
  either true x = refl
  either false x = refl

  magnet_url-scheme :
      lower scheme ≡ scheme
      → (rest : Chars) → magnet_url lower decode split (scheme ++ rest) ≡ scheme ++ rest
  unfolding magnet_url take starts_with
  magnet_url-scheme low rest = rw (low, scheme-no_hash rest) (either _ (scheme ++ rest))

  bc_link-form :
      (link : Chars)
      → HasScheme (bc_link_to_magnet lower decode split link)
        ⊎ (bc_link_to_magnet lower decode split link ≡ [])
  unfolding bc_link_to_magnet link_of_parts
  bc_link-form link = parts (split (decode (drop 8 link)))
    where
      parts : (ps : List Chars) → HasScheme (link_of_parts ps) ⊎ (link_of_parts ps ≡ [])
      parts [] = inr refl
      parts (a ∷ []) = inr refl
      parts (a ∷ b ∷ []) = inr refl
      parts (a ∷ b ∷ c ∷ []) = inr refl
      parts (a ∷ b ∷ c ∷ d ∷ []) = inr refl
      parts (a ∷ b ∷ c ∷ d ∷ e ∷ []) = inl (d ++ (codes "&dn=" ++ b), refl)
      parts (a ∷ b ∷ c ∷ d ∷ e ∷ g ∷ ps) = inr refl

  -- The URL has the scheme in front, is empty, or is the source itself.
  IsForm : Chars → Chars → Type 0
  IsForm s u = (HasScheme u ⊎ (u ≡ [])) ⊎ (u ≡ s)

  chosen :
      (s x : Chars) (b c d : Bool)
      → HasScheme x ⊎ (x ≡ [])
      → IsForm s (if b then x else if c then s else if d then scheme ++ s else s)
  unfolding IsForm
  chosen s x true c d h = inl h
  chosen s x false true d h = inr refl
  chosen s x false false true h = inl (inl (s, refl))
  chosen s x false false false h = inr refl

  magnet_url-IsForm : (s : Chars) → IsForm s (magnet_url lower decode split s)
  unfolding magnet_url IsForm
  magnet_url-IsForm [] = inr refl
  magnet_url-IsForm (c ∷ cs) =
      chosen (c ∷ cs) (bc_link_to_magnet lower decode split (c ∷ cs)) _ _ _ (bc_link-form (c ∷ cs))

  -- Where lower case leaves the scheme of magnet URIs as it is, the URL that `MagnetUri` makes of
  -- a text is its own URL: it comes out the same when it is read again.
  pub magnet_url-magnet_url :
      lower scheme ≡ scheme
      → (s : Chars)
      → magnet_url lower decode split (magnet_url lower decode split s)
        ≡ magnet_url lower decode split s
  unfolding IsForm
  magnet_url-magnet_url low s = settled (magnet_url-IsForm s)
    where
      settled :
          IsForm s (magnet_url lower decode split s)
          → magnet_url lower decode split (magnet_url lower decode split s)
            ≡ magnet_url lower decode split s
      settled (inl (inl (rest, e))) =
          ap (magnet_url lower decode split) e ∙ magnet_url-scheme low rest ∙ sym e
      settled (inl (inr e)) = ap (magnet_url lower decode split) e ∙ unfold magnet_url in sym e
      settled (inr e) = ap (magnet_url lower decode split) e
