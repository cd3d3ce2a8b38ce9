-- ===== src/Commands/Characters.antt =====
-- The characters of an address, and of the schemes.
use node_proxybroker.Prelude.{
  ℕ, zero, suc, ◌≡◌, refl, sym, ap, ◌∙◌, Bool, true, false, ◌||◌, some, [], ◌∷◌, Str, codes,
  str_eq_iff, is_empty, is_digit, strip_prefix, all, ◌==◌, arith, inl, inr, ◌⊎◌, Option-cases,
  Bool-cases,
}
use node_proxybroker.Http.Split.{strip_prefix-eq_some}
use node_proxybroker.Address.{digits, octet, octet_dot}
use node_proxybroker.Commands.Addresses.{is_ip, is_schema}

abbrev pub ip_char : ℕ → Bool
ip_char c = is_digit c || c == b'.'

ip_char-digits : (n : ℕ) (s : Str) → all ip_char (digits n s).1 ≡ true → all ip_char s ≡ true
unfolding digits
ip_char-digits zero s h = h
ip_char-digits (suc n) [] h = refl
ip_char-digits (suc n) (c ∷ s) h = ground (arith, ip_char-digits n s, h)

ip_char-octet : (s o r : Str) → octet s ≡ some (o, r) → all ip_char r ≡ true → all ip_char s ≡ true
unfolding octet
ip_char-octet s o r e h = ground (arith, e, h, ip_char-digits 3 s)

ip_char-dot :
    (s r : Str) → strip_prefix (codes ".") s ≡ some r → all ip_char r ≡ true → all ip_char s ≡ true
ip_char-dot s r e h = ap (all ip_char) (strip_prefix-eq_some (codes ".") s r e) ∙ h

ip_char-octet_dot :
    (s o r : Str) → octet_dot s ≡ some (o, r) → all ip_char r ≡ true → all ip_char s ≡ true
unfolding octet_dot
ip_char-octet_dot s o r e h = elim (Option-cases (octet s)) [
  | inl q ↦ absurd (ground (arith, q))
  | inr ((d, t), q) ↦ elim (Option-cases (strip_prefix (codes ".") t)) [
    | inl k ↦ absurd (ground (arith, q, k))
    | inr (u, k) ↦
        let left : u ≡ r = ground (arith, q, k) in
        ip_char-octet s d t q (ip_char-dot t u k (ap (all ip_char) left ∙ h))
  ]
]

is_empty-ip_char : (s : Str) → is_empty s ≡ true → all ip_char s ≡ true
is_empty-ip_char [] h = refl
is_empty-ip_char (c ∷ s) h = absurd (ground (arith, h))

-- An address has no other characters than digits and dots.
pub ip_char-is_ip : (s : Str) → is_ip s ≡ true → all ip_char s ≡ true
unfolding is_ip
ip_char-is_ip s h = elim (Option-cases (octet_dot s)) [
  | inl q ↦ absurd (ground (arith, h, q))
  | inr ((a, b), q) ↦ elim (Option-cases (octet_dot b)) [
    | inl k ↦ absurd (ground (arith, h, q, k))
    | inr ((a1, c), k) ↦ elim (Option-cases (octet_dot c)) [
      | inl l ↦ absurd (ground (arith, h, q, k, l))
      | inr ((a2, d), l) ↦ elim (Option-cases (octet d)) [
        | inl m ↦ absurd (ground (arith, h, q, k, l, m))
        | inr ((a3, e), m) ↦
            let ends : is_empty e ≡ true = ground (arith, h, q, k, l, m) in
            ip_char-octet_dot s a b q (
              ip_char-octet_dot b a1 c k
                (ip_char-octet_dot c a2 d l (ip_char-octet d a3 e m (is_empty-ip_char e ends))))
      ]
    ]
  ]
]

pub full-is_ip : (s : Str) → is_ip s ≡ true → is_empty s ≡ false
unfolding is_ip octet_dot octet digits
full-is_ip [] h = absurd (ground (arith, h))
full-is_ip (c ∷ s) h = refl

pub is_schema-cases : (s : Str) → is_schema s ≡ true → (s ≡ codes "http") ⊎ (s ≡ codes "https")
unfolding is_schema
is_schema-cases s h = ground (arith, h, str_eq_iff s (codes "http"), str_eq_iff s (codes "https"))

-- No scheme is an address.
pub is_ip-is_schema : (s : Str) → is_ip s ≡ true → is_schema s ≡ false
is_ip-is_schema s h = elim (Bool-cases (is_schema s)) [
  | inr e ↦ e
  | inl e ↦ elim (is_schema-cases s e) [
    | inl k ↦ absurd (ground (arith, sym (ip_char-is_ip s h) ∙ ap (all ip_char) k))
    | inr k ↦ absurd (ground (arith, sym (ip_char-is_ip s h) ∙ ap (all ip_char) k))
  ]
]
