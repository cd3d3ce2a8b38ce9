-- ===== src/Http/RoundTrip.antt =====
-- `build` puts together what `parse` takes apart.
use node_proxybroker.Prelude.{
  ℕ, ◌+◌, ◌-◌, ◌≤◌, ◌<◌, ◌≡◌, ◌≢◌, refl, ap, ◌∙◌, sym, false, inl, inr, none, some, [], ◌∷◌, ◌++◌,
  Str, index_of, crlf, crlf_crlf, take, drop, Bool-cases, Option-cases, take-append-drop, drop-add,
  ltb, arith,
}
use mathlib.Core.List.{append_assoc}
use node_proxybroker.Http.Split.{index_of-drop}
use node_proxybroker.Http.{Error, is_secured, split_head, parse_data, build}

-- A line break is not followed at once by a blank line that starts inside it.
breaks_differ : (x y : Str) → drop 1 (crlf ++ x) ≢ crlf_crlf ++ y
breaks_differ x y e = ground (arith, e)

break_apart :
    (d : Str) (h e : ℕ)
    → index_of crlf d ≡ some h
    → index_of crlf_crlf d ≡ some e
    → h < e
    → h + 2 ≤ e
break_apart d h e p q lt = elim (Bool-cases (ltb (h + 1) e)) [
  | inl t ↦ ground (arith, t)
  | inr f ↦
      let near : e ≡ h + 1 = ground (arith, f) in
      absurd (
        breaks_differ _ _ (
          ap (drop 1) (sym (index_of-drop crlf d h p))
          ∙ sym (drop-add h 1 d)
          ∙ ap (λ k. drop k d) (sym near)
          ∙ index_of-drop crlf_crlf d e q))
]

-- A text with a whole head is its first line, its header block and its body, with the breaks.
pub take-drop-split :
    (d : Str) (h e : ℕ)
    → index_of crlf d ≡ some h
    → index_of crlf_crlf d ≡ some e
    → h < e
    → d ≡ take h d ++ (crlf ++ (take (e - h - 2) (drop (h + 2) d) ++ (crlf_crlf ++ drop (e + 4) d)))
take-drop-split d h e p q lt =
    let apart = break_apart d h e p q lt in
    let rest = drop (h + 2) d in
    let k = e - h - 2 in
    let far : h + 2 + k ≡ e = omega arith in
    let tail : drop k rest ≡ crlf_crlf ++ drop (e + 4) d =
      sym (drop-add (h + 2) k d)
      ∙ ap (λ n. drop n d) far
      ∙ index_of-drop crlf_crlf d e q
      ∙ ap (◌++◌ crlf_crlf) (sym (drop-add e 4 d)) in
    sym (take-append-drop h d)
    ∙ ap (◌++◌ (take h d)) (
        index_of-drop crlf d h p
        ∙ ap (◌++◌ crlf)
            (sym (drop-add h 2 d) ∙ sym (take-append-drop k rest) ∙ ap (◌++◌ (take k rest)) tail))

-- A blank line is a line break too.
pub break_of_blank : (d : Str) → index_of crlf d ≡ none → index_of crlf_crlf d ≡ none
unfolding index_of
break_of_blank [] h = refl
break_of_blank (c ∷ d) h = ground (arith, break_of_blank d)

split_head-join :
    (d q h b : Str) → split_head d ≡ some (q, h, b) → d ≡ q ++ (crlf ++ (h ++ (crlf_crlf ++ b)))
unfolding split_head
split_head-join d q h b s = elim (Option-cases (index_of crlf d)) [
  | inl no_break ↦ absurd (ground (arith, no_break, break_of_blank d no_break))
  | inr (i, p) ↦ elim (Option-cases (index_of crlf_crlf d)) [
    | inl no_blank ↦ absurd (ground (arith, p, no_blank))
    | inr (e, r) ↦ ground (arith, p, r, take-drop-split d i e p r)
  ]
]

-- A text chunk with a whole head is built back as it was, byte for byte.
pub build-parse_data :
    (x : Error → Error) (d : Str)
    → is_secured d ≡ false
    → split_head d ≢ none
    → build (parse_data x d) ≡ some d
unfolding build parse_data
build-parse_data x d plain whole = elim (Option-cases (split_head d)) [
  | inl no_head ↦ absurd (whole no_head)
  | inr ((q, h, b), e) ↦ rw plain (
      rw e (
        ap some (
          ap (λ t. q ++ (crlf ++ t)) (append_assoc h crlf_crlf b)
          ∙ sym (split_head-join d q h b e))))
]
