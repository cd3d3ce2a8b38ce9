-- ===== src/Address/Shape.antt =====
-- REGEX and `ProxyValidateTask.handle`: what a text is that is taken for an address.
use mathlib.Core.Path.{subst}
use node_proxybroker.Prelude.{
  append_assoc, append_nil, ℕ, zero, suc, ◌≤◌, ◌≡◌, ◌∙◌, sym, ap, refl, true, false, Option, none,
  some, [], ◌∷◌, ◌++◌, Str, codes, is_digit, is_empty, all, length, strip_prefix, arith,
  if◌then◌else◌, Option-cases, ◌⊎◌, inl, inr,
}
use node_proxybroker.Http.Split.{strip_prefix-eq_some}
use node_proxybroker.Address.{
  AddressMatch, digits, octet, octet_dot, port_end, match_host, match_address,
}

-- At least one digit, at most `n`, and nothing else.
abbrev pub IsNumber : ℕ → Str → Type 0
IsNumber n s = (all is_digit s ≡ true) × (is_empty s ≡ false) × (length s ≤ n)

abbrev pub scheme_text : Option Str → Str
scheme_text none = []
scheme_text (some s) = s ++ codes "://"

-- What follows the address: nothing, a colon, a port, or both.
abbrev pub IsEnding : Str → Option Str → Type 0
IsEnding s none = (s ≡ []) ⊎ (s ≡ codes ":")
IsEnding s (some p) = IsNumber 5 p × ((s ≡ p) ⊎ (s ≡ codes ":" ++ p))

digits-append : (n : ℕ) (s : Str) → (digits n s).0 ++ (digits n s).1 ≡ s
unfolding digits
digits-append zero s = refl
digits-append (suc n) [] = refl
digits-append (suc n) (c ∷ s) = ground (arith, digits-append n s)

digits-number :
    (n : ℕ) (s : Str) → (all is_digit (digits n s).0 ≡ true) × (length (digits n s).0 ≤ n)
unfolding digits
digits-number zero s = (refl, omega arith)
digits-number (suc n) [] = (refl, omega arith)
digits-number (suc n) (c ∷ s) = ground (arith, digits-number n s)

octet-IsNumber : (s o r : Str) → octet s ≡ some (o, r) → IsNumber 3 o × (o ++ r ≡ s)
unfolding octet
octet-IsNumber s o r e = ground (arith, digits-number 3 s, digits-append 3 s)

octet_dot-IsNumber :
    (s a r : Str)
    → octet_dot s ≡ some (a, r)
    → (o : Str) × IsNumber 3 o × (a ≡ o ++ codes ".") × (a ++ r ≡ s)
unfolding octet_dot
octet_dot-IsNumber s a r e = elim (Option-cases (octet s)) [
  | inl q ↦ absurd (ground (arith, q))
  | inr ((o, t), q) ↦ elim (Option-cases (strip_prefix (codes ".") t)) [
    | inl k ↦ absurd (ground (arith, q, k))
    | inr (u, k) ↦
        let number = octet-IsNumber s o t q in
        let same : o ++ codes "." ≡ a = ground (arith, q, k) in
        let left : u ≡ r = ground (arith, q, k) in
        (
          o,
          number.0,
          sym same,
          ap (λ x. x ++ r) (sym same)
              ∙ append_assoc o (codes ".") r
              ∙ ap (λ x. o ++ (codes "." ++ x)) (sym left)
              ∙ ap (◌++◌ o) (sym (strip_prefix-eq_some (codes ".") t u k))
              ∙ number.1,
        )
  ]
]

nil_of_empty : (s : Str) → is_empty s ≡ true → s ≡ []
nil_of_empty [] e = refl
nil_of_empty (c ∷ s) e = ground arith

-- The text is a port, or nothing.
abbrev HasPort : Str → Option Str → Type 0
HasPort t none = t ≡ []
HasPort t (some p) = IsNumber 5 p × (t ≡ p)

digits-whole : (t : Str) → is_empty (digits 5 t).1 ≡ true → t ≡ (digits 5 t).0
digits-whole t e =
    sym (digits-append 5 t)
    ∙ ap (λ x. (digits 5 t).0 ++ x) (nil_of_empty (digits 5 t).1 e)
    ∙ append_nil (digits 5 t).0

port-HasPort :
    (t : Str) (p : Option Str)
    → (if is_empty (digits 5 t).1
        then some (if is_empty (digits 5 t).0 then none else some (digits 5 t).0)
        else none)
      ≡ some p
    → HasPort t p
port-HasPort t none e = ground (arith, digits-whole t, nil_of_empty (digits 5 t).0)
port-HasPort t (some p) e = ground (arith, digits-whole t, digits-number 5 t)

HasPort-IsEnding :
    (s t : Str) (p : Option Str) → (s ≡ t) ⊎ (s ≡ codes ":" ++ t) → HasPort t p → IsEnding s p
HasPort-IsEnding s t none (inl e) h = inl (e ∙ h)
HasPort-IsEnding s t none (inr e) h = inr (e ∙ ap (◌++◌ (codes ":")) h)
HasPort-IsEnding s t (some p) (inl e) h = (h.0, inl (e ∙ h.1))
HasPort-IsEnding s t (some p) (inr e) h = (h.0, inr (e ∙ ap (◌++◌ (codes ":")) h.1))

port_end-IsEnding : (s : Str) (p : Option Str) → port_end s ≡ some p → IsEnding s p
unfolding port_end
port_end-IsEnding s p e = elim (Option-cases (strip_prefix (codes ":") s)) [
  | inl k ↦ HasPort-IsEnding s s p (inl refl) (port-HasPort s p (rw k at e))
  | inr (t, k) ↦
      HasPort-IsEnding s t p (inr (strip_prefix-eq_some (codes ":") s t k))
        (port-HasPort t p (rw k at e))
]

-- The text is four numbers of at most three digits with dots between, and an ending that holds the
-- port; `ip` is the four numbers with their dots.
abbrev pub IsHost : Str → Str → Option Str → Type 0
IsHost s ip port =
    (a : Str) × (b : Str) × (c : Str) × (d : Str) × (ending : Str) × (s ≡ ip ++ ending)
    × (ip ≡ a ++ (codes "." ++ (b ++ (codes "." ++ (c ++ (codes "." ++ d))))))
    × IsNumber 3 a
    × IsNumber 3 b
    × IsNumber 3 c
    × IsNumber 3 d
    × IsEnding ending port

joined :
    (s a s1 b s2 c s3 d s4 : Str)
    → a ++ s1 ≡ s
    → b ++ s2 ≡ s1
    → c ++ s3 ≡ s2
    → d ++ s4 ≡ s3
    → s ≡ (a ++ (b ++ (c ++ d))) ++ s4
joined s a s1 b s2 c s3 d s4 ea eb ec ed =
    sym ea
    ∙ ap (◌++◌ a) (sym eb ∙ ap (◌++◌ b) (sym ec ∙ ap (◌++◌ c) (sym ed)))
    ∙ sym (
        append_assoc a (b ++ (c ++ d)) s4
        ∙ ap (◌++◌ a) (append_assoc b (c ++ d) s4 ∙ ap (◌++◌ b) (append_assoc c d s4)))

dotted :
    (a b c d x y z : Str)
    → a ≡ x ++ codes "."
    → b ≡ y ++ codes "."
    → c ≡ z ++ codes "."
    → a ++ (b ++ (c ++ d)) ≡ x ++ (codes "." ++ (y ++ (codes "." ++ (z ++ (codes "." ++ d)))))
dotted a b c d x y z ea eb ec =
    ap (λ w. w ++ (b ++ (c ++ d))) ea
    ∙ append_assoc x (codes ".") (b ++ (c ++ d))
    ∙ ap (λ w. x ++ (codes "." ++ w))
        (ap (λ w. w ++ (c ++ d)) eb
          ∙ append_assoc y (codes ".") (c ++ d)
          ∙ ap (λ w. y ++ (codes "." ++ w)) (ap (λ w. w ++ d) ec ∙ append_assoc z (codes ".") d))

parts-IsHost :
    (s a s1 b s2 c s3 d s4 : Str) (p : Option Str)
    → octet_dot s ≡ some (a, s1)
    → octet_dot s1 ≡ some (b, s2)
    → octet_dot s2 ≡ some (c, s3)
    → octet s3 ≡ some (d, s4)
    → port_end s4 ≡ some p
    → IsHost s (a ++ (b ++ (c ++ d))) p
parts-IsHost s a s1 b s2 c s3 d s4 p qa qb qc qd qp =
    let (x, nx, ex, ea) = octet_dot-IsNumber s a s1 qa in
    let (y, ny, ey, eb) = octet_dot-IsNumber s1 b s2 qb in
    let (z, nz, ez, ec) = octet_dot-IsNumber s2 c s3 qc in
    let number = octet-IsNumber s3 d s4 qd in
    (
      x,
      y,
      z,
      d,
      s4,
      joined s a s1 b s2 c s3 d s4 ea eb ec number.1,
      dotted a b c d x y z ex ey ez,
      nx,
      ny,
      nz,
      number.0,
      port_end-IsEnding s4 p qp,
    )

match_host-IsHost :
    (scheme : Option Str) (s : Str) (m : AddressMatch)
    → match_host scheme s ≡ some m
    → (m.scheme ≡ scheme) × IsHost s m.ip m.port
unfolding match_host
match_host-IsHost scheme s m e = elim (Option-cases (octet_dot s)) [
  | inl q ↦ absurd (ground (arith, q))
  | inr ((a, s1), qa) ↦ elim (Option-cases (octet_dot s1)) [
    | inl q ↦ absurd (ground (arith, qa, q))
    | inr ((b, s2), qb) ↦ elim (Option-cases (octet_dot s2)) [
      | inl q ↦ absurd (ground (arith, qa, qb, q))
      | inr ((c, s3), qc) ↦ elim (Option-cases (octet s3)) [
        | inl q ↦ absurd (ground (arith, qa, qb, qc, q))
        | inr ((d, s4), qd) ↦ elim (Option-cases (port_end s4)) [
          | inl q ↦ absurd (ground (arith, qa, qb, qc, qd, q))
          | inr (p, qp) ↦
              let same : record { scheme = scheme; ip = a ++ (b ++ (c ++ d)); port = p } ≡ m =
                ground (arith, qa, qb, qc, qd, qp) in
              (
                ap AddressMatch.scheme (sym same),
                subst (λ (t : AddressMatch). IsHost s t.ip t.port) same
                    (parts-IsHost s a s1 b s2 c s3 d s4 p qa qb qc qd qp),
              )
        ]
      ]
    ]
  ]
]

-- A text that the address expression matches is its scheme with `://`, if it has one, and then four
-- numbers of at most three digits with dots between, and then nothing, a colon, or a port of at most
-- five digits with a colon before it or none: the three groups of the match are these parts.
pub match_address-IsHost :
    (s : Str) (m : AddressMatch)
    → match_address s ≡ some m
    → (host : Str) × (s ≡ scheme_text m.scheme ++ host) × IsHost host m.ip m.port
unfolding match_address
match_address-IsHost s m e = elim (Option-cases (strip_prefix (codes "http://") s)) [
  | inr (t, q) ↦
      let h = match_host-IsHost (some (codes "http")) t m (ground (arith, q)) in
      (
        t,
        strip_prefix-eq_some (codes "http://") s t q ∙ ap (λ c. scheme_text c ++ t) (sym h.0),
        h.1,
      )
  | inl no_http ↦ elim (Option-cases (strip_prefix (codes "https://") s)) [
    | inr (t, q) ↦
        let h = match_host-IsHost (some (codes "https")) t m (ground (arith, no_http, q)) in
        (
          t,
          strip_prefix-eq_some (codes "https://") s t q ∙ ap (λ c. scheme_text c ++ t) (sym h.0),
          h.1,
        )
    | inl no_https ↦
        let h = match_host-IsHost none s m (ground (arith, no_http, no_https)) in
        (s, ap (λ c. scheme_text c ++ s) (sym h.0), h.1)
  ]
]
