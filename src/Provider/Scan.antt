-- ===== src/Provider/Scan.antt =====
-- `exec` of a global expression until null: every match in a page, from the front. `at` is the
-- expression at the start of a text, with what follows its match.
use node_proxybroker.Prelude.{
  ℕ, zero, suc, ◌-◌, ◌≡◌, refl, ap, Option, none, some, List, [], ◌∷◌, ◌++◌, Str, length, All,
  All-map, Option-cases, inl, inr,
}

module _ {ℓ} {A : Type ℓ} (at : Str → Option (A × Str)) where
  -- The characters of a match are skipped.
  unfoldable pub scan : ℕ → Str → List A
  scan skip [] = []
  scan (suc k) (c ∷ s) = scan k s
  scan zero (c ∷ s) = elim (at (c ∷ s)) [
    | none ↦ scan zero s
    | some (a, rest) ↦ a ∷ scan (length s - length rest) s
  ]

  -- The expression matches somewhere in the text, and gives that value there.
  abbrev pub Stands : Str → A → Type ℓ
  Stands s a =
      (pre : Str) × (row : Str) × (rest : Str) × (s ≡ pre ++ row) × (at row ≡ some (a, rest))

  Stands-later : (c : ℕ) (s : Str) (a : A) → Stands s a → Stands (c ∷ s) a
  Stands-later c s a (pre, row, rest, e, r) = (c ∷ pre, row, rest, ap (◌∷◌ c) e, r)

  pub scan-Stands : (skip : ℕ) (s : Str) → All (Stands s) (scan skip s)
  unfolding scan
  scan-Stands skip [] = tt
  scan-Stands (suc k) (c ∷ s) = All-map (scan k s) (Stands-later c s) (scan-Stands k s)
  scan-Stands zero (c ∷ s) = elim (Option-cases (at (c ∷ s))) [
    | inl q ↦ rw (q, scan) (All-map (scan 0 s) (Stands-later c s) (scan-Stands 0 s))
    | inr ((a, rest), q) ↦
        let skip = length s - length rest in
        rw (q, scan)
          (
            ([], c ∷ s, rest, refl, q),
            All-map (scan skip s) (Stands-later c s) (scan-Stands skip s),
          )
  ]
