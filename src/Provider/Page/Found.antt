-- ===== src/Provider/Page/Found.antt =====
-- `ProxyListenDe`: what is found on a page stands there.
use mathlib.Core.Path.{subst}
use node_proxybroker.Prelude.{
  ℕ, ◌≡◌, refl, sym, ap, ◌∙◌, Bool, true, false, some, [], ◌∷◌, ◌++◌, Str, codes, is_digit,
  is_empty, strip_prefix, parse_int, all, All, All-map, append_assoc, arith, Option-cases, inl, inr,
}
use node_proxybroker.Http.Split.{strip_prefix-eq_some}
use node_proxybroker.Address.{ProxyData}
use node_proxybroker.Provider.Page.{span, some_of, number_dot, is_gap, row_at, scan_page}
use node_proxybroker.Provider.Scan.{Stands, scan-Stands}

span-append :
    (p : ℕ → Bool) (s : Str) → ((span p s).0 ++ (span p s).1 ≡ s) × (all p (span p s).0 ≡ true)
unfolding span
span-append p [] = (refl, refl)
span-append p (c ∷ s) = ground (arith, span-append p s)

-- A run that is not empty.
abbrev pub IsRun : (ℕ → Bool) → Str → Type 0
IsRun p s = (all p s ≡ true) × (is_empty s ≡ false)

some_of-IsRun : (p : ℕ → Bool) (s a r : Str) → some_of p s ≡ some (a, r) → (a ++ r ≡ s) × IsRun p a
unfolding some_of
some_of-IsRun p s a r e = ground (arith, span-append p s, e)

number_dot-IsRun :
    (s a r : Str)
    → number_dot s ≡ some (a, r)
    → (n : Str) × (a ≡ n ++ codes ".") × IsRun is_digit n × (a ++ r ≡ s)
unfolding number_dot
number_dot-IsRun s a r e = elim (Option-cases (some_of is_digit s)) [
  | inl q ↦ absurd (ground (arith, q, e))
  | inr ((n, t), q) ↦ elim (Option-cases (strip_prefix (codes ".") t)) [
    | inl k ↦ absurd (ground (arith, q, k, e))
    | inr (u, k) ↦
        let run = some_of-IsRun is_digit s n t q in
        let same : n ++ codes "." ≡ a = ground (arith, q, k, e) in
        let left : u ≡ r = ground (arith, q, k, e) in
        (
          n,
          sym same,
          run.1,
          ap (λ x. x ++ r) (sym same)
              ∙ append_assoc n (codes ".") r
              ∙ ap (λ x. n ++ (codes "." ++ x)) (sym left)
              ∙ ap (◌++◌ n) (sym (strip_prefix-eq_some (codes ".") t u k))
              ∙ run.0,
        )
  ]
]

-- A row of the page: `>`, four numbers with dots, some other characters, and the port.
abbrev pub IsRow : Str → ProxyData → Str → Type 0
IsRow s d rest =
    (a : Str) × (b : Str) × (c : Str) × (n : Str) × (gap : Str) × (port : Str) × (d.ip
      ≡ (a ++ codes ".") ++ ((b ++ codes ".") ++ ((c ++ codes ".") ++ n)))
    × IsRun is_digit a
    × IsRun is_digit b
    × IsRun is_digit c
    × IsRun is_digit n
    × IsRun is_gap gap
    × IsRun is_digit port
    × (d.port ≡ parse_int port)
    × (s ≡ codes ">" ++ (d.ip ++ (gap ++ (port ++ rest))))

parts-IsRow :
    (s r a r1 b r2 c r3 n r4 gap r5 port rest : Str)
    → strip_prefix (codes ">") s ≡ some r
    → number_dot r ≡ some (a, r1)
    → number_dot r1 ≡ some (b, r2)
    → number_dot r2 ≡ some (c, r3)
    → some_of is_digit r3 ≡ some (n, r4)
    → some_of is_gap r4 ≡ some (gap, r5)
    → some_of is_digit r5 ≡ some (port, rest)
    → IsRow s (record { ip = a ++ (b ++ (c ++ n)); port = parse_int port }) rest
parts-IsRow s r a r1 b r2 c r3 n r4 gap r5 port rest q qa qb qc qn qg qp =
    let (x, ax, rx, ea) = number_dot-IsRun r a r1 qa in
    let (y, by, ry, eb) = number_dot-IsRun r1 b r2 qb in
    let (z, cz, rz, ec) = number_dot-IsRun r2 c r3 qc in
    let (en, rn) = some_of-IsRun is_digit r3 n r4 qn in
    let (eg, rg) = some_of-IsRun is_gap r4 gap r5 qg in
    let (ep, rp) = some_of-IsRun is_digit r5 port rest qp in
    (
      x,
      y,
      z,
      n,
      gap,
      port,
      ap (λ w. w ++ (b ++ (c ++ n))) ax
          ∙ ap (λ w. (x ++ codes ".") ++ (w ++ (c ++ n))) by
          ∙ ap (λ w. (x ++ codes ".") ++ ((y ++ codes ".") ++ (w ++ n))) cz,
      rx,
      ry,
      rz,
      rn,
      rg,
      rp,
      refl,
      strip_prefix-eq_some (codes ">") s r q
          ∙ ap (◌++◌ (codes ">")) (
              sym ea
              ∙ ap (◌++◌ a) (
                  sym eb
                  ∙ ap (◌++◌ b) (
                      sym ec
                      ∙ ap (◌++◌ c) (sym en ∙ ap (◌++◌ n) (sym eg ∙ ap (◌++◌ gap) (sym ep)))))
              ∙ sym (regroup a b c n (gap ++ (port ++ rest)))),
    )
  where
    regroup : (a b c n t : Str) → (a ++ (b ++ (c ++ n))) ++ t ≡ a ++ (b ++ (c ++ (n ++ t)))
    regroup a b c n t =
        append_assoc a (b ++ (c ++ n)) t
        ∙ ap (◌++◌ a) (append_assoc b (c ++ n) t ∙ ap (◌++◌ b) (append_assoc c n t))

row_at-IsRow : (s : Str) (d : ProxyData) (rest : Str) → row_at s ≡ some (d, rest) → IsRow s d rest
unfolding row_at
row_at-IsRow s d rest e = elim (Option-cases (strip_prefix (codes ">") s)) [
  | inl q ↦ absurd (ground (arith, q, e))
  | inr (r, q) ↦ elim (Option-cases (number_dot r)) [
    | inl k ↦ absurd (ground (arith, q, k, e))
    | inr ((a, r1), qa) ↦ elim (Option-cases (number_dot r1)) [
      | inl k ↦ absurd (ground (arith, q, qa, k, e))
      | inr ((b, r2), qb) ↦ elim (Option-cases (number_dot r2)) [
        | inl k ↦ absurd (ground (arith, q, qa, qb, k, e))
        | inr ((c, r3), qc) ↦ elim (Option-cases (some_of is_digit r3)) [
          | inl k ↦ absurd (ground (arith, q, qa, qb, qc, k, e))
          | inr ((n, r4), qn) ↦ elim (Option-cases (some_of is_gap r4)) [
            | inl k ↦ absurd (ground (arith, q, qa, qb, qc, qn, k, e))
            | inr ((gap, r5), qg) ↦ elim (Option-cases (some_of is_digit r5)) [
              | inl k ↦ absurd (ground (arith, q, qa, qb, qc, qn, qg, k, e))
              | inr ((port, r6), qp) ↦
                  let found : ProxyData = record {
                    ip = a ++ (b ++ (c ++ n));
                    port = parse_int port;
                  } in
                  let same : (found, r6) ≡ (d, rest) =
                    ground (arith, q, qa, qb, qc, qn, qg, qp, e) in
                  subst (λ (t : ProxyData × Str). IsRow s t.0 t.1) same
                    (parts-IsRow s r a r1 b r2 c r3 n r4 gap r5 port r6 q qa qb qc qn qg qp)
            ]
          ]
        ]
      ]
    ]
  ]
]

-- A row stands somewhere in the text.
abbrev pub HasRow : Str → ProxyData → Type 0
HasRow s d = (pre : Str) × (row : Str) × (rest : Str) × (s ≡ pre ++ row) × IsRow row d rest

-- Every address that is found on a page stands there, as `>`, four numbers joined by dots, at least
-- one other character, and the digits of its port.
pub scan_page-Stands : (html : Str) → All (HasRow html) (scan_page html)
unfolding scan_page
scan_page-Stands html =
    All-map (scan_page html)
      (λ d (h : Stands row_at html d). (h.0, h.1, h.2, h.3, row_at-IsRow h.1 d h.2 h.4))
      (scan-Stands row_at 0 html)
