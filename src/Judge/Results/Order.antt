-- ===== src/Judge/Results/Order.antt =====
-- `JudgeResults.getVariants`: the results in the order of their protocols.
use mathlib.Core.List.{Perm}
use mathlib.Core.List.Perm
use node_proxybroker.Prelude.{◌≡◌, true, false, List, [], ◌∷◌, arith, Bool-cases, inl, inr, All}
use node_proxybroker.Judge.Results.{JudgeResult, before, insert, get_variants}

-- No result stands after one that it comes before.
abbrev pub Sorted : List JudgeResult → Type 0
Sorted [] = Unit
Sorted (x ∷ xs) = All (λ y. before y x ≡ false) xs × Sorted xs

before_trans : (x y z : JudgeResult) → before y x ≡ false → before z y ≡ false → before z x ≡ false
unfolding before
before_trans x y z e f = ground arith

before_asym : (x y : JudgeResult) → before y x ≡ true → before x y ≡ false
unfolding before
before_asym x y e = ground arith

All-before :
    (x y : JudgeResult) (l : List JudgeResult)
    → before y x ≡ false
    → All (λ z. before z y ≡ false) l
    → All (λ z. before z x ≡ false) l
All-before x y [] e h = tt
All-before x y (z ∷ l) e h = (before_trans x y z e h.0, All-before x y l e h.1)

All-insert {κ} :
    (P : JudgeResult → Type κ) (x : JudgeResult) (l : List JudgeResult)
    → P x
    → All P l
    → All P (insert x l)
unfolding insert
All-insert P x [] p h = (p, tt)
All-insert P x (y ∷ l) p h = elim (Bool-cases (before y x)) [
  | inl e ↦ rw (e, insert) (h.0, All-insert P x l p h.1)
  | inr e ↦ rw (e, insert) (p, h)
]

insert-Sorted : (x : JudgeResult) (l : List JudgeResult) → Sorted l → Sorted (insert x l)
unfolding insert
insert-Sorted x [] h = (tt, tt)
insert-Sorted x (y ∷ l) h = elim (Bool-cases (before y x)) [
  | inl e ↦ rw (e, insert) (All-insert _ x l (before_asym x y e) h.0, insert-Sorted x l h.1)
  | inr e ↦ rw (e, insert) ((e, All-before x y l e h.0), h)
]

insert-Perm : (x : JudgeResult) (l : List JudgeResult) → Perm (insert x l) (x ∷ l)
unfolding insert
insert-Perm x [] = Perm.refl _
insert-Perm x (y ∷ l) = elim (Bool-cases (before y x)) [
  | inl e ↦ rw (e, insert) (Perm.trans (Perm.cons y (insert-Perm x l)) (Perm.swap x y l))
  | inr e ↦ rw (e, insert) (Perm.refl _)
]

-- `getVariants` gives the same results, each as often as before, and by the protocol to the proxy
-- and then by the one from it, in the order of their numbers.
pub get_variants-Sorted : (l : List JudgeResult) → Sorted (get_variants l) × Perm (get_variants l) l
unfolding get_variants
get_variants-Sorted [] = (tt, Perm.refl [])
get_variants-Sorted (x ∷ l) =
    let (s, p) = get_variants-Sorted l in
    (insert-Sorted x _ s, Perm.trans (insert-Perm x (get_variants l)) (Perm.cons x p))
