-- ===== src/Http/Split.antt =====
-- What `index_of` finds: the needle stands where it says, and not before.
use node_proxybroker.Prelude.{
  ℕ, zero, suc, ◌≡◌, refl, ap, ◌∙◌, sym, inl, inr, some, [], ◌∷◌, ◌++◌, Str, strip_prefix, index_of,
  length, drop, drop-length, Option-cases, Bool-cases, is_some, ◌+◌, ◌≤◌, arith,
}

pub strip_prefix-eq_some : (p s r : Str) → strip_prefix p s ≡ some r → s ≡ p ++ r
unfolding strip_prefix
strip_prefix-eq_some [] s r e = ground arith
strip_prefix-eq_some (x ∷ p) [] r e = cc
strip_prefix-eq_some (x ∷ p) (c ∷ s) r e = ground (arith, strip_prefix-eq_some p s r)

pub strip_prefix-append : (p r : Str) → strip_prefix p (p ++ r) ≡ some r
unfolding strip_prefix
strip_prefix-append [] r = refl
strip_prefix-append (x ∷ p) r = ground (arith, strip_prefix-append p r)

strip_prefix-drop : (p s r : Str) → strip_prefix p s ≡ some r → s ≡ p ++ drop (length p) s
strip_prefix-drop p s r e =
    let q = strip_prefix-eq_some p s r e in
    q ∙ ap (◌++◌ p) (sym (drop-length p r) ∙ ap (drop (length p)) (sym q))

-- From the position found, the text goes on with the needle.
pub index_of-drop :
    (n s : Str) (i : ℕ) → index_of n s ≡ some i → drop i s ≡ n ++ drop (length n) (drop i s)
unfolding index_of
index_of-drop n [] i e = elim (Option-cases (strip_prefix n [])) [
  | inl h ↦ absurd (ground (arith, h))
  | inr (r, h) ↦ let z : i ≡ 0 = ground (arith, h) in rw z (strip_prefix-drop n [] r h)
]
index_of-drop n (c ∷ s) zero e = elim (Option-cases (strip_prefix n (c ∷ s))) [
  | inl h ↦ absurd (ground (arith, h))
  | inr (r, h) ↦ strip_prefix-drop n (c ∷ s) r h
]
index_of-drop n (c ∷ s) (suc i) e = index_of-drop n s i (ground arith)

strip_prefix-fits : (n a r : Str) → strip_prefix n a ≡ some r → length n ≤ length a
unfolding strip_prefix
strip_prefix-fits [] a r e = omega arith
strip_prefix-fits (x ∷ n) [] r e = absurd (ground (arith, e))
strip_prefix-fits (x ∷ n) (c ∷ a) r e = ground (arith, strip_prefix-fits n a r)

-- What is found lies in the text.
pub index_of-le-length : (n a : Str) (i : ℕ) → index_of n a ≡ some i → i + length n ≤ length a
unfolding index_of
index_of-le-length n [] i e = elim (Option-cases (strip_prefix n [])) [
  | inl h ↦ absurd (ground (arith, h))
  | inr (r, h) ↦ ground (arith, h, strip_prefix-fits n [] r h)
]
index_of-le-length n (c ∷ a) zero e = elim (Option-cases (strip_prefix n (c ∷ a))) [
  | inl h ↦ absurd (ground (arith, h))
  | inr (r, h) ↦ omega (arith, strip_prefix-fits n (c ∷ a) r h)
]
index_of-le-length n (c ∷ a) (suc i) e = omega (arith, index_of-le-length n a i (ground arith))

-- A prefix of a longer text is one of a part that is long enough.
is_some-strip_prefix-append :
    (n a b : Str)
    → length n ≤ length a
    → is_some (strip_prefix n (a ++ b)) ≡ is_some (strip_prefix n a)
unfolding strip_prefix
is_some-strip_prefix-append [] a b h = refl
is_some-strip_prefix-append (x ∷ n) [] b h = absurd (omega arith)
is_some-strip_prefix-append (x ∷ n) (c ∷ a) b h = ground (arith, is_some-strip_prefix-append n a b)

-- What follows does not change where a text is first found.
pub index_of-append : (n a b : Str) (i : ℕ) → index_of n a ≡ some i → index_of n (a ++ b) ≡ some i
unfolding index_of
index_of-append [] [] [] i e = e
index_of-append [] [] (c ∷ b) i e = ground (arith, e)
index_of-append (x ∷ n) [] b i e = absurd (ground (arith, e))
index_of-append n (c ∷ a) b i e =
    let fits =
      is_some-strip_prefix-append n (c ∷ a) b (omega (arith, index_of-le-length n (c ∷ a) i e)) in
    elim (Bool-cases (is_some (strip_prefix n (c ∷ a)))) [
      | inl h ↦ ground (arith, h, fits)
      | inr h ↦ elim (Option-cases (index_of n a)) [
        | inl k ↦ absurd (ground (arith, h, k))
        | inr (j, k) ↦ ground (arith, h, fits, k, index_of-append n a b j k)
      ]
    ]
