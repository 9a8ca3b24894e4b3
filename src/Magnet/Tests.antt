-- ===== src/Magnet/Tests.antt =====
-- Runs of `MagnetUri` on short texts, and an instance of its theorem.
use bitswash.Prelude.{[], ◌∷◌, ◌++◌, some, ◌≡◌, refl}
use bitswash.Wx.{Chars, codes}
use bitswash.Magnet.{scheme, magnet_url, magnet_uri, is_bare_hash, bc_link_to_magnet, link_of_parts}
use bitswash.Magnet.Settled.{magnet_url-magnet_url}

abbrev bare : Chars
bare = codes "0123456789abcdef0123456789abcdef01234567"

magnet_url-bare : magnet_url (λ c. c) (λ c. c) (λ c. []) bare ≡ scheme ++ bare
unfolding magnet_url is_bare_hash
magnet_url-bare = refl

-- A link of BitComet, decoded and split.
magnet_url-link :
    magnet_url
      (λ c. c)
      (λ c. c)
      (λ c. codes "AA" ∷ codes "name" ∷ codes "12" ∷ c ∷ codes "ZZ" ∷ [])
      (codes "bc://bt/hash")
    ≡ codes "magnet:?xt=urn:btih:hash&dn=name"
unfolding magnet_url bc_link_to_magnet link_of_parts
magnet_url-link = refl

-- Without a name the text of the hash is the name.
magnet_uri-name :
    let m = magnet_uri (λ c. c) (λ c. c) (λ c. []) (λ c. some ([], 7)) (λ h. codes "7") bare in
    m.m_name ≡ codes "7"
unfolding magnet_uri
magnet_uri-name = refl

magnet_url-magnet_url_example :
    magnet_url (λ c. c) (λ c. c) (λ c. []) (magnet_url (λ c. c) (λ c. c) (λ c. []) bare)
    ≡ magnet_url (λ c. c) (λ c. c) (λ c. []) bare
magnet_url-magnet_url_example = magnet_url-magnet_url (λ c. c) (λ c. c) (λ c. []) refl bare
