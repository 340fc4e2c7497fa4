-- ===== src/Priority/Laws.antt =====
-- The order of the candidates.
use orbitnet.Base.{
  ◌≤◌, ◌<◌, ◌≡◌, ◌⊎◌, true, false, Bool-cases, List, [], ◌∷◌, inl, inr, All, All-map, arith,
}
use mathlib.Core.List.{Perm}
use mathlib.Core.List.Perm
use orbitnet.Priority.{Candidate, score_of, cmp, is_greater, insert, order}

-- A higher score first, and of equal scores the lower id.
abbrev pub Precedes : Candidate → Candidate → Type 0
Precedes a b = (score_of b < score_of a) ⊎ ((score_of a ≡ score_of b) × (a.id ≤ b.id))

abbrev pub IsOrdered : List Candidate → Type 0
IsOrdered [] = Unit
IsOrdered (c ∷ cs) = All (λ d. Precedes c d) cs × IsOrdered cs

cmp-Precedes : (a b : Candidate) → is_greater (cmp a b) ≡ false → Precedes a b
unfolding cmp
cmp-Precedes a b h = ground (arith, h)

cmp-follows : (a b : Candidate) → is_greater (cmp a b) ≡ true → Precedes b a
unfolding cmp
cmp-follows a b h = ground (arith, h)

Precedes-trans : (a b c : Candidate) → Precedes a b → Precedes b c → Precedes a c
Precedes-trans a b c h k = ground (arith, h, k)

insert-Perm : (c : Candidate) (cs : List Candidate) → Perm (insert c cs) (c ∷ cs)
insert-Perm c [] = Perm.refl (c ∷ [])
insert-Perm c (d ∷ ds) = elim (Bool-cases (is_greater (cmp c d))) [
  | inl after ↦ rw after (Perm.trans (Perm.cons d (insert-Perm c ds)) (Perm.swap c d ds))
  | inr before ↦ rw before (Perm.refl (c ∷ d ∷ ds))
]

insert-All :
    (P : Candidate → Type 0) (c : Candidate) (cs : List Candidate)
    → P c
    → All P cs
    → All P (insert c cs)
insert-All P c [] h all = (h, tt)
insert-All P c (d ∷ ds) h all = elim (Bool-cases (is_greater (cmp c d))) [
  | inl after ↦ rw after (all.0, insert-All P c ds h all.1)
  | inr before ↦ rw before (h, all)
]

insert-IsOrdered : (c : Candidate) (cs : List Candidate) → IsOrdered cs → IsOrdered (insert c cs)
insert-IsOrdered c [] h = (tt, tt)
insert-IsOrdered c (d ∷ ds) h = elim (Bool-cases (is_greater (cmp c d))) [
  | inl after ↦
      rw after
        (insert-All (λ e. Precedes d e) c ds (cmp-follows c d after) h.0, insert-IsOrdered c ds h.1)
  | inr before ↦
      let first = cmp-Precedes c d before in
      rw before (
        (
          first,
          All-map (λ e. Precedes d e) (λ e. Precedes c e) ds (λ e g. Precedes-trans c d e first g)
              h.0,
        ),
        h,
      )
]

-- The send order holds the same candidates, a higher score before a lower one and, of equal scores, the
-- lower id first.
pub order-IsOrdered : (cs : List Candidate) → Perm (order cs) cs × IsOrdered (order cs)
unfolding order
order-IsOrdered [] = (Perm.refl [], tt)
order-IsOrdered (c ∷ cs) =
    let rest = order-IsOrdered cs in
    (
      Perm.trans (insert-Perm c (order cs)) (Perm.cons c rest.0),
      insert-IsOrdered c (order cs) rest.1,
    )
