-- ===== src/Http/Lines.antt =====
-- A head put together from lines is taken apart into them.
use node_proxybroker.Prelude.{
  ℕ, suc, ◌+◌, ◌-◌, ◌<◌, ◌≡◌, refl, sym, ap, ◌∙◌, true, false, some, List, [], ◌∷◌, ◌++◌, Str,
  index_of, strip_prefix, is_empty, crlf, crlf_crlf, join, length, length-append, take, drop,
  drop-length, drop-add, All, append_assoc, has_no, ◌==◌, is_some, leb, arith,
}
use node_proxybroker.Http.{Error, is_secured, split_head, status_match, status_error, parse_data}

-- A line of a head: not empty, and with no carriage return in it.
abbrev pub IsHeadLine : Str → Type 0
IsHeadLine s = (has_no 13 s ≡ true) × (is_empty s ≡ false)

-- The first line break stands behind the first line.
index_of-crlf :
    (a s : Str) → has_no 13 a ≡ true → index_of crlf (a ++ (crlf ++ s)) ≡ some (length a)
unfolding index_of strip_prefix
index_of-crlf [] s h = refl
index_of-crlf (c ∷ a) s h = ground (arith, h, index_of-crlf a s)

index_of-later :
    (n s : Str) (c i : ℕ)
    → is_some (strip_prefix n (c ∷ s)) ≡ false
    → index_of n s ≡ some i
    → index_of n (c ∷ s) ≡ some (suc i)
unfolding index_of
index_of-later n s c i h e = ground (arith, h, e)

-- The first blank line stands behind the last line.
blank-line :
    (a s : Str) (i : ℕ)
    → has_no 13 a ≡ true
    → index_of crlf_crlf s ≡ some i
    → index_of crlf_crlf (a ++ s) ≡ some (length a + i)
unfolding strip_prefix
blank-line [] s i h e = e ∙ ap some (omega arith)
blank-line (c ∷ a) s i h e =
    index_of-later crlf_crlf (a ++ s) c (length a + i) (ground (arith, h))
      (blank-line a s i (ground (arith, h)) e)
    ∙ ap some (omega arith)

-- A line break before a further line is no blank line.
blank-break :
    (c i : ℕ) (s : Str)
    → (c == 13) ≡ false
    → index_of crlf_crlf (c ∷ s) ≡ some i
    → index_of crlf_crlf (crlf ++ (c ∷ s)) ≡ some (2 + i)
unfolding strip_prefix
blank-break c i s h e =
    index_of-later crlf_crlf (10 ∷ c ∷ s) 13 (suc i) (ground (arith, h))
      (index_of-later crlf_crlf (c ∷ s) 10 i refl e)
    ∙ ap some (omega arith)

blank-here : (s : Str) → index_of crlf_crlf (crlf_crlf ++ s) ≡ some 0
unfolding index_of strip_prefix
blank-here s = refl

join-first :
    (sep : Str) (c : ℕ) (y : Str) (ys : List Str) → join sep ((c ∷ y) ∷ ys) ≡ c ∷ join sep (y ∷ ys)
join-first sep c y [] = refl
join-first sep c y (z ∷ ys) = refl

blank-join :
    (x : Str) (xs : List Str) (b : Str)
    → All IsHeadLine (x ∷ xs)
    → index_of crlf_crlf (join crlf (x ∷ xs) ++ (crlf_crlf ++ b))
      ≡ some (length (join crlf (x ∷ xs)))
blank-join x [] b h = blank-line x (crlf_crlf ++ b) 0 h.0.0 (blank-here b) ∙ ap some (omega arith)
blank-join x ([] ∷ ys) b h = absurd (ground (arith, h))
blank-join x ((c ∷ y) ∷ ys) b h =
    let rest = join crlf ((c ∷ y) ∷ ys) in
    let tail = crlf_crlf ++ b in
    let first = ap (λ s. s ++ tail) (join-first crlf c y ys) in
    let next : index_of crlf_crlf (c ∷ (join crlf (y ∷ ys) ++ tail)) ≡ some (length rest) =
      ap (index_of crlf_crlf) (sym first) ∙ blank-join (c ∷ y) ys b h.1 in
    let broken : index_of crlf_crlf (crlf ++ (rest ++ tail)) ≡ some (2 + length rest) =
      ap (λ s. index_of crlf_crlf (crlf ++ s)) first
      ∙ blank-break c (length rest) (join crlf (y ∷ ys) ++ tail) (ground (arith, h.1.0.0)) next in
    ap (index_of crlf_crlf) (append_assoc x (crlf ++ rest) tail)
    ∙ blank-line x (crlf ++ (rest ++ tail)) (2 + length rest) h.0.0 broken
    ∙ ap some (omega (arith, length-append x (crlf ++ rest)))

take-length : (a s : Str) → take (length a) (a ++ s) ≡ a
take-length [] s = refl
take-length (c ∷ a) s = ap (◌∷◌ c) (take-length a s)

split_head-at :
    (d : Str) (h e : ℕ)
    → index_of crlf d ≡ some h
    → index_of crlf_crlf d ≡ some e
    → h < e
    → split_head d ≡ some (take h d, take (e - h - 2) (drop (h + 2) d), drop (e + 4) d)
unfolding split_head
split_head-at d h e p q lt = ground (arith, p, q)

-- What stands behind the first line.
drop-line : (q s : Str) → drop (length q + 2) (q ++ (crlf ++ s)) ≡ s
drop-line q s = drop-add (length q) 2 (q ++ (crlf ++ s)) ∙ ap (drop 2) (drop-length q (crlf ++ s))

-- What stands behind the header lines.
drop-head :
    (q h b : Str)
    → drop (length q + (2 + length h) + 4) (q ++ (crlf ++ (h ++ (crlf_crlf ++ b)))) ≡ b
drop-head q h b =
    ap (λ n. drop n (q ++ (crlf ++ (h ++ (crlf_crlf ++ b))))) (omega arith)
    ∙ drop-add (length q + 2) (length h + 4) _
    ∙ ap (drop (length h + 4)) (drop-line q _)
    ∙ drop-add (length h) 4 _
    ∙ ap (drop 4) (drop-length h (crlf_crlf ++ b))

-- A first line, at least one header line and a body, put together with the line breaks between, are
-- taken apart into themselves.
pub split_head-lines :
    (q x : Str) (xs : List Str) (b : Str)
    → All IsHeadLine (q ∷ x ∷ xs)
    → split_head (q ++ (crlf ++ (join crlf (x ∷ xs) ++ (crlf_crlf ++ b))))
      ≡ some (q, join crlf (x ∷ xs), b)
split_head-lines q x xs b h =
    let head = join crlf (x ∷ xs) in
    let d = q ++ (crlf ++ (head ++ (crlf_crlf ++ b))) in
    let len : length (q ++ (crlf ++ head)) ≡ length q + (2 + length head) =
      omega (arith, length-append q (crlf ++ head)) in
    let blank : index_of crlf_crlf d ≡ some (length q + (2 + length head)) =
      ap (index_of crlf_crlf) (sym (append_assoc q (crlf ++ head) (crlf_crlf ++ b)))
      ∙ blank-join q (x ∷ xs) b h
      ∙ ap some len in
    let size : length q + (2 + length head) - length q - 2 ≡ length head = omega arith in
    split_head-at d (length q) (length q + (2 + length head)) (index_of-crlf q _ h.0.0) blank
      (omega arith)
    ∙ ap
        (λ y. some (
          y,
          take (length q + (2 + length head) - length q - 2) (drop (length q + 2) d),
          drop (length q + (2 + length head) + 4) d,
        ))
        (take-length q _)
    ∙ ap (λ y. some (q, y, drop (length q + (2 + length head) + 4) d))
        (ap (λ y. take (length q + (2 + length head) - length q - 2) y) (drop-line q _)
          ∙ ap (λ n. take n (head ++ (crlf_crlf ++ b))) size
          ∙ take-length head _)
    ∙ ap (λ y. some (q, head, y)) (drop-head q head b)

-- A reply whose status is that of an error.
pub parse_data-failed :
    (x : Error → Error) (d q h b : Str) (n : ℕ)
    → is_secured d ≡ false
    → split_head d ≡ some (q, h, b)
    → is_empty q ≡ false
    → status_match q ≡ some n
    → leb 400 n ≡ true
    → parse_data x d ≡ record {
      secured = false;
      body = some b;
      headers = some h;
      query = some q;
      status_code = some n;
      error = some (x (record { message = q; code = [] }));
    }
unfolding parse_data status_error
parse_data-failed x d q h b n plain whole filled status bad =
    rw plain (rw whole (rw filled (rw status (rw bad refl))))
