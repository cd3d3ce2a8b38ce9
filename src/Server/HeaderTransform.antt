-- ===== src/Server/HeaderTransform.antt =====
-- src/libs/server/HttpHeaderTransform.ts: headers added to the head of a stream. `none` of `ssl` is
-- undefined.
use node_proxybroker.Prelude.{
  ◌≡◌, refl, ap, ◌∙◌, Bool, false, Option, none, some, List, [], ◌∷◌, ◌++◌, map, Str, join, crlf,
  crlf_crlf, if◌then◌else◌, arith,
}
use node_proxybroker.Http.{
  Error, Headers, is_secured, split_head, parse_data, add_headers, build, header_line,
  merged_headers,
}

pub record HttpHeaderTransform : Type 0 where
  pub ssl : Option Bool
  pub headers : Option Headers

unfoldable pub set_headers : Headers → HttpHeaderTransform → HttpHeaderTransform
set_headers h t = record t { headers = some h }

-- A message that cannot be built is an exception, which leaves the chunk as it is.
abbrev built_or : Str → Option Str → Str
built_or chunk none = chunk
built_or chunk (some s) = s

module _ (x : Error → Error) where
  unfoldable pub rewritten : Headers → Str → Str
  unfolding parse_data add_headers build
  rewritten h chunk =
      let r = parse_data x chunk in
      if r.secured then chunk else built_or chunk (build (add_headers r h))

  -- `_transform`: the new state and the chunk that is passed on.
  unfoldable pub transform : HttpHeaderTransform → Str → HttpHeaderTransform × Str
  unfolding rewritten
  transform t chunk = elim t.headers [
    | none ↦ (t, chunk)
    | some h ↦ elim t.ssl [
      | some b ↦ (t, chunk)
      | none ↦ (record t { ssl = some (parse_data x chunk).secured }, rewritten h chunk)
    ]
  ]

  unfoldable pub transform_all : HttpHeaderTransform → List Str → List Str
  unfolding transform
  transform_all t [] = []
  transform_all t (c ∷ cs) = (transform t c).1 ∷ transform_all (transform t c).0 cs

  -- A stream that needs no rewriting.
  transform_all-settled :
      (h : Headers) (b : Bool) (cs : List Str)
      → transform_all (record { ssl = some b; headers = some h }) cs ≡ cs
  unfolding transform_all
  transform_all-settled h b [] = refl
  transform_all-settled h b (c ∷ cs) = ap (◌∷◌ c) (transform_all-settled h b cs)

  pub transform_all-first :
      (h : Headers) (c : Str) (cs : List Str)
      → transform_all (record { ssl = none; headers = some h }) (c ∷ cs) ≡ rewritten h c ∷ cs
  unfolding transform_all
  transform_all-first h c cs = ap (◌∷◌ (rewritten h c)) (transform_all-settled h _ cs)

  rewritten-whole :
      (h : Headers) (c q head b : Str)
      → is_secured c ≡ false
      → split_head c ≡ some (q, head, b)
      → rewritten h c
        ≡ q
          ++ (crlf
              ++ ((join crlf (map header_line (merged_headers (some head) h)) ++ crlf_crlf) ++ b))
  unfolding rewritten parse_data add_headers build
  rewritten-whole h c q head b plain s = ground (arith, plain, s)

  rewritten-partial : (h : Headers) (c : Str) → split_head c ≡ none → rewritten h c ≡ c
  unfolding rewritten parse_data add_headers build
  rewritten-partial h c s = ground (arith, s)

  -- Of a stream whose first chunk is plain text with a whole head, that head is passed on with the
  -- headers merged into it, the query line and the body as they were; every later chunk is passed on
  -- as it is.
  pub transform_all-whole :
      (h : Headers) (c q head b : Str) (cs : List Str)
      → is_secured c ≡ false
      → split_head c ≡ some (q, head, b)
      → transform_all (record { ssl = none; headers = some h }) (c ∷ cs)
        ≡ (q
            ++ (crlf
                ++ ((join crlf (map header_line (merged_headers (some head) h)) ++ crlf_crlf)
                    ++ b)))
          ∷ cs
  transform_all-whole h c q head b cs plain s =
      transform_all-first h c cs ∙ ap (λ y. y ∷ cs) (rewritten-whole h c q head b plain s)

  -- A stream whose first chunk has no whole head is passed on as it is, whatever comes later: no
  -- header is added to it.
  pub transform_all-partial :
      (h : Headers) (c : Str) (cs : List Str)
      → split_head c ≡ none
      → transform_all (record { ssl = none; headers = some h }) (c ∷ cs) ≡ c ∷ cs
  transform_all-partial h c cs s =
      transform_all-first h c cs ∙ ap (λ y. y ∷ cs) (rewritten-partial h c s)
