-- ===== src/Provider/FreeLists/Loaded.antt =====
-- `FreeProxyListsCom`: what is loaded comes from the lists that the page names.
use node_proxybroker.Prelude.{
  ◌≡◌, true, List, [], ◌∷◌, ◌++◌, Str, codes, any, All, All-append, All-map, Bool-cases, any-append,
  str_eq_refl, arith, inl, inr,
}
use node_proxybroker.Address.{ProxyData}
use node_proxybroker.Provider.{push, push_all, same_proxy}
use node_proxybroker.Provider.Fetched.{Distinct, push_all-Distinct}
use node_proxybroker.Provider.Scan.{scan, Stands, scan-Stands}
use node_proxybroker.Provider.FreeLists.{
  ListVariant, id_at, entry_at, matched_ids, list_url, read_lists, get_lists,
}

module _ {ℓ} (P : ProxyData → Type ℓ) where
  push-All : (ps : List ProxyData) (d : ProxyData) → All P ps → P d → All P (push ps d)
  unfolding push
  push-All ps d h k = elim (Bool-cases (any (λ p. same_proxy p d) ps)) [
    | inl there ↦ rw (there, push) h
    | inr new ↦ rw (new, push) (All-append P ps (d ∷ []) h (k, tt))
  ]

  push_all-All : (ds ps : List ProxyData) → All P ps → All P ds → All P (push_all ps ds)
  unfolding push_all
  push_all-All [] ps h k = h
  push_all-All (d ∷ ds) ps h k = push_all-All ds (push ps d) (push-All ps d h k.0) k.1

same_proxy_self : (d : ProxyData) → same_proxy d d ≡ true
unfolding same_proxy
same_proxy_self d = ground (arith, str_eq_refl d.ip)

push-keeps :
    (ps : List ProxyData) (a d : ProxyData)
    → any (λ p. same_proxy p d) ps ≡ true
    → any (λ p. same_proxy p d) (push ps a) ≡ true
unfolding push
push-keeps ps a d h = ground (arith, h, any-append (λ p. same_proxy p d) ps (a ∷ []))

push-has : (ps : List ProxyData) (d : ProxyData) → any (λ p. same_proxy p d) (push ps d) ≡ true
unfolding push
push-has ps d = ground (arith, any-append (λ p. same_proxy p d) ps (d ∷ []), same_proxy_self d)

push_all-keeps :
    (ds ps : List ProxyData) (d : ProxyData)
    → any (λ p. same_proxy p d) ps ≡ true
    → any (λ p. same_proxy p d) (push_all ps ds) ≡ true
unfolding push_all
push_all-keeps [] ps d h = h
push_all-keeps (a ∷ ds) ps d h = push_all-keeps ds (push ps a) d (push-keeps ps a d h)

push_all-IsKept :
    (ds ps : List ProxyData) → All (λ d. any (λ p. same_proxy p d) (push_all ps ds) ≡ true) ds
unfolding push_all
push_all-IsKept [] ps = tt
push_all-IsKept (d ∷ ds) ps =
    (push_all-keeps ds (push ps d) d (push-has ps d), push_all-IsKept ds (push ps d))

-- The address is in the list.
abbrev pub IsKept : List ProxyData → ProxyData → Type 0
IsKept ps d = any (λ p. same_proxy p d) ps ≡ true

module _ (url : Str) (v : ListVariant) (fetch : Str → Str) where
  -- The address stands in a list that the page of the variant links to.
  abbrev pub IsListed : ProxyData → Type 0
  IsListed d =
      (id : Str) × Stands (id_at v.path_load) (fetch (url ++ (codes "/" ++ v.path))) id
      × Stands entry_at (fetch (list_url url v id)) d

  read_lists-All :
      (ids : List Str) (ps : List ProxyData)
      → All (Stands (id_at v.path_load) (fetch (url ++ (codes "/" ++ v.path)))) ids
      → All IsListed ps
      → Distinct ps
      → All IsListed (read_lists url v fetch ids ps) × Distinct (read_lists url v fetch ids ps)
  unfolding read_lists
  read_lists-All [] ps l h d = (h, d)
  read_lists-All (id ∷ ids) ps l h d =
      let html = fetch (list_url url v id) in
      let ds = scan entry_at 0 html in
      read_lists-All ids (push_all ps ds) l.1
        (push_all-All IsListed ds ps h (
          All-map ds (λ a (s : Stands entry_at html a). (id, l.0, s))
            (scan-Stands entry_at 0 html)))
        (push_all-Distinct ds ps d)

  matched_ids-Stands : (html : Str) → All (Stands (id_at v.path_load) html) (matched_ids v html)
  unfolding matched_ids
  matched_ids-Stands html = scan-Stands (id_at v.path_load) 0 html

  read_lists-keeps :
      (ids : List Str) (ps : List ProxyData) (d : ProxyData)
      → IsKept ps d
      → IsKept (read_lists url v fetch ids ps) d
  unfolding read_lists
  read_lists-keeps [] ps d h = h
  read_lists-keeps (id ∷ ids) ps d h =
      let ds = scan entry_at 0 (fetch (list_url url v id)) in
      read_lists-keeps ids (push_all ps ds) d (push_all-keeps ds ps d h)

  read_lists-IsKept :
      (ids : List Str) (ps : List ProxyData)
      → All
          (λ id.
            All
              (IsKept (read_lists url v fetch ids ps))
              (scan entry_at 0 (fetch (list_url url v id))))
          ids
  unfolding read_lists
  read_lists-IsKept [] ps = tt
  read_lists-IsKept (id ∷ ids) ps =
      let ds = scan entry_at 0 (fetch (list_url url v id)) in
      (
        All-map ds (λ d h. read_lists-keeps ids (push_all ps ds) d h) (push_all-IsKept ds ps),
        read_lists-IsKept ids (push_all ps ds),
      )

  -- Every address that `get` gives stands as an entry in a list whose number stands in a link of the
  -- variant's page, and none is given twice; and every entry that is found in a list whose number is
  -- found on that page is given.
  pub get_lists-IsListed :
      All IsListed (get_lists url v fetch)
      × Distinct (get_lists url v fetch)
      × All
          (λ id. All (IsKept (get_lists url v fetch)) (scan entry_at 0 (fetch (list_url url v id))))
          (matched_ids v (fetch (url ++ (codes "/" ++ v.path))))
  unfolding get_lists
  get_lists-IsListed =
      let html = fetch (url ++ (codes "/" ++ v.path)) in
      let listed = read_lists-All (matched_ids v html) [] (matched_ids-Stands html) tt tt in
      (listed.0, listed.1, read_lists-IsKept (matched_ids v html) [])
