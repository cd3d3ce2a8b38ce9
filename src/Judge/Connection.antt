-- ===== src/Judge/Connection.antt =====
-- `onServerConnection` of src/libs/judge/Judge.ts: the first data of a connection to the judge goes
-- into the log of the request that it belongs to.
use node_proxybroker.Prelude.{
  ◌≡◌, refl, Option, Bool, true, false, none, some, List, [], ◌∷◌, map, Str, codes, str_eq,
  is_space, index_of, split_crlf, crlf_crlf, take, if◌then◌else◌, onto_head, Option-cases, inl, inr,
  arith,
}
use node_proxybroker.Http.{is_secured}
use node_proxybroker.Judge.Service.{
  Judge, Answer, cached, parts, judge, route, judged, ping, bad_request, not_found,
}

-- split(/\s+/): a run of spaces separates once; `was` says that a space came just before.
unfoldable pub split_spaces : Bool → Str → List Str
split_spaces was [] = [] ∷ []
split_spaces was (c ∷ s) =
    let space = split_spaces true s in
    let other = split_spaces false s in
    if is_space c then (if was then space else [] ∷ space) else onto_head c other

-- The head of the data: what stands before a blank line, or all of it.
unfoldable pub received_head : Str → Str
received_head d = elim (index_of crlf_crlf d) [ none ↦ d | some i ↦ take i d ]

-- What the data comes to: it is that of a TLS connection, the listener throws, it is for no request,
-- or its lines are logged for one.
pub data Seen {ℓ} (R : Type ℓ) : Type ℓ where
  encrypted : Seen R
  thrown : Seen R
  unknown : Seen R
  logged : Str → R → List Str → Seen R

abbrev pub log_text : Str → Str
log_text [] = codes "_UNKNOWN_"
log_text (c ∷ s) = c ∷ s

abbrev pub first_line_of : List Str → Str
first_line_of [] = []
first_line_of (l ∷ _) = l

module _ {ℓ} {R : Type ℓ} where
  abbrev logged_for : Judge R → List Str → Str → Seen R
  logged_for j lines id = elim (cached id j.cache) [
    | none ↦ unknown
    | some r ↦ if j.enabled then logged id r (map log_text lines) else unknown
  ]

  unfoldable pub seen_path : Judge R → List Str → List Str → Seen R
  unfolding cached
  seen_path j lines (p ∷ q ∷ []) =
      if str_eq p (codes "judge") then logged_for j lines q else unknown
  seen_path j lines [] = unknown
  seen_path j lines (p ∷ []) = unknown
  seen_path j lines (p ∷ q ∷ _ ∷ _) = unknown

  -- The method and the path of the first line; without a path the listener throws.
  unfoldable pub seen_line : Judge R → List Str → List Str → Seen R
  unfolding seen_path
  seen_line j lines (_ ∷ path ∷ _) = seen_path j lines (parts path)
  seen_line j lines (_ ∷ []) = thrown
  seen_line j lines [] = thrown

  -- `onData`
  unfoldable pub on_data : Judge R → Str → Seen R
  unfolding is_secured received_head seen_line split_spaces
  on_data j d =
      let lines = split_crlf (received_head d) in
      if is_secured d
      then encrypted
      else seen_line j lines (split_spaces false (first_line_of lines))

  -- What is logged for the answer that `judge` gives to the same path.
  abbrev pub logged_by : Answer R → List Str → Seen R
  logged_by (judged id r) lines = logged id r (map log_text lines)
  logged_by ping lines = unknown
  logged_by bad_request lines = unknown
  logged_by not_found lines = unknown

  logged_for-cached :
      (j : Judge R) (p q : Str) (lines : List Str)
      → seen_path j lines (p ∷ q ∷ []) ≡ logged_by (route j (p ∷ q ∷ [])) lines
  unfolding seen_path route
  logged_for-cached j p q lines = elim (Option-cases (cached q j.cache)) [
    | inl e ↦ ground (arith, e)
    | inr (r, e) ↦ ground (arith, e)
  ]

  seen_path-route :
      (j : Judge R) (ps lines : List Str) → seen_path j lines ps ≡ logged_by (route j ps) lines
  unfolding seen_path route
  seen_path-route j [] lines = refl
  seen_path-route j (p ∷ []) lines = ground arith
  seen_path-route j (p ∷ q ∷ []) lines = logged_for-cached j p q lines
  seen_path-route j (p ∷ q ∷ _ ∷ _) lines = ground arith

  -- The first plain data of a connection, with a target in its first line that `url.parse` takes for a
  -- path as it stands, is logged for a request exactly if a call of that target is one that `judge`
  -- answers as a call of that request; then all lines of the head are logged, an empty one as
  -- '_UNKNOWN_'.
  pub on_data-judge :
      (path_of : Str → Option Str) (j : Judge R) (d method target : Str) (rest : List Str)
      → is_secured d ≡ false
      → split_spaces false (first_line_of (split_crlf (received_head d))) ≡ method ∷ target ∷ rest
      → path_of target ≡ some target
      → (a : Answer R) × (judge path_of j target ≡ some a)
        × (on_data j d ≡ logged_by a (split_crlf (received_head d)))
  unfolding on_data judge seen_line
  on_data-judge path_of j d method target rest h words own =
      let lines = split_crlf (received_head d) in
      (
        route j (parts target),
        rw (own, judge) refl,
        rw (h, words, on_data) (seen_path-route j (parts target) lines),
      )

  -- First data without a target makes the listener throw.
  pub on_data-thrown :
      (j : Judge R) (d method : Str)
      → is_secured d ≡ false
      → split_spaces false (first_line_of (split_crlf (received_head d))) ≡ method ∷ []
      → on_data j d ≡ thrown
  unfolding on_data seen_line
  on_data-thrown j d method h words = rw (h, words, on_data) refl
