-- ===== src/Pacing/Lead/Laws.antt =====
-- What the window of margins holds, and how its suggestions are spaced.
use orbitnet.Base.{
  ℕ, ◌+◌, ◌≤◌, ◌<◌, ◌≡◌, ◌≢◌, refl, sym, ◌∙◌, ap, max, true, false, Bool-cases, Option, none, some,
  List, [], ◌∷◌, ◌++◌, inl, inr, ltb, length, length-append, length-set, drop, take, take-drop,
  arith,
}
use mathlib.Core.List.{append_assoc, append-nil}
use orbitnet.Base.Int.{ℤ, pos, negsuc, eq_of_parts}
use orbitnet.Base.Rolling.{rolled, in_order, last, Rolls, Rolls-in_order, Rolls-rolled}
use orbitnet.Pacing.Lead.{
  LeadTracker, with_capacity, push, min_ℤ, lesser, least, min_margin, clear, adjustment, is_zero,
  suggest_adjustment,
}

unfoldable pub pushes : LeadTracker → List ℤ → LeadTracker
pushes t [] = t
pushes t (m ∷ ms) = pushes (push t m) ms

capacity-pushes : (t : LeadTracker) (ms : List ℤ) → (pushes t ms).capacity ≡ t.capacity
unfolding pushes push
capacity-pushes t [] = refl
capacity-pushes t (m ∷ ms) = capacity-pushes (push t m) ms

Rolls-pushes :
    (t : LeadTracker) (ms pushed : List ℤ)
    → 0 < t.capacity
    → Rolls t.capacity pushed t.samples t.next
    → Rolls t.capacity (pushed ++ ms) (pushes t ms).samples (pushes t ms).next
unfolding pushes push
Rolls-pushes t [] pushed room h = rw (append-nil pushed) h
Rolls-pushes t (m ∷ ms) pushed room h = rw (sym (append_assoc pushed (m ∷ []) ms)) (
    Rolls-pushes (push t m) ms (pushed ++ (m ∷ [])) room
      (Rolls-rolled t.capacity pushed t.samples t.next m room h))

min_comm : (a b : ℤ) → min_ℤ a b ≡ min_ℤ b a
min_comm a b = ground (arith, eq_of_parts a b)

-- The least of two windows.
abbrev joined : Option ℤ → Option ℤ → Option ℤ
joined none b = b
joined (some a) b = lesser a b

min_assoc : (a b c : ℤ) → min_ℤ a (min_ℤ b c) ≡ min_ℤ (min_ℤ a b) c
min_assoc a b c = ground arith

least-append : (xs ys : List ℤ) → least (xs ++ ys) ≡ joined (least xs) (least ys)
least-append [] ys = refl
least-append (x ∷ xs) ys = ap (lesser x) (least-append xs ys) ∙ regroup (least xs) (least ys)
  where
    regroup : (a b : Option ℤ) → lesser x (joined a b) ≡ joined (lesser x a) b
    regroup none b = refl
    regroup (some a) none = refl
    regroup (some a) (some b) = ap some (min_assoc x a b)

joined_comm : (a b : Option ℤ) → joined a b ≡ joined b a
joined_comm none none = refl
joined_comm none (some b) = refl
joined_comm (some a) none = refl
joined_comm (some a) (some b) = ap some (min_comm a b)

-- The order of a window does not matter to its least margin.
least-in_order : (xs : List ℤ) (next : ℕ) → least (in_order xs next) ≡ least xs
least-in_order xs next =
    least-append (drop next xs) (take next xs)
    ∙ joined_comm (least (drop next xs)) (least (take next xs))
    ∙ sym (least-append (take next xs) (drop next xs))
    ∙ ap least (take-drop next xs)

-- Whatever margins a new tracker is pushed, its worst margin is the least of the last ones, as many as
-- it holds.
pub min_margin-last :
    (n : ℕ) (ms : List ℤ) → min_margin (pushes (with_capacity n) ms) ≡ least (last (max n 1) ms)
unfolding min_margin with_capacity
min_margin-last n ms =
    let t = with_capacity n in
    let rolls = Rolls-pushes t ms [] (omega arith) (inl (omega arith, refl, refl)) in
    sym (least-in_order (pushes t ms).samples (pushes t ms).next)
    ∙ ap least (Rolls-in_order (max n 1) ms (pushes t ms).samples (pushes t ms).next rolls)

length-pushes :
    (t : LeadTracker) (ms : List ℤ) → length (pushes t ms).samples ≤ length t.samples + length ms
unfolding pushes push
length-pushes t [] = omega arith
length-pushes t (m ∷ ms) =
    let rest = length-pushes (push t m) ms in
    elim (Bool-cases (ltb (length t.samples) t.capacity)) [
      | inl room ↦ omega (arith, rest, grown room)
      | inr full ↦ omega (arith, rest, kept full)
    ]
  where
    grown :
        ltb (length t.samples) t.capacity ≡ true
        → length (rolled t.samples t.capacity t.next m).0 ≡ length t.samples + 1
    grown room = rw room (length-append t.samples (m ∷ []))

    kept :
        ltb (length t.samples) t.capacity ≡ false
        → length (rolled t.samples t.capacity t.next m).0 ≡ length t.samples
    kept full = rw full (length-set t.samples t.next m)

partial_window :
    (t : LeadTracker) (target : ℤ)
    → length t.samples < t.capacity
    → (suggest_adjustment t target).0 ≡ pos 0
unfolding suggest_adjustment
partial_window t target h =
    let room : ltb (length t.samples) t.capacity ≡ true = ground (arith, h) in rw room refl

is_zero→eq : (z : ℤ) → is_zero z ≡ true → z ≡ pos 0
is_zero→eq (pos n) h = ground (arith, h)
is_zero→eq (negsuc n) h = cc h

cleared_by :
    (t : LeadTracker) (target : ℤ)
    → (suggest_adjustment t target).0 ≢ pos 0
    → (suggest_adjustment t target).1 ≡ clear t
unfolding suggest_adjustment
cleared_by t target some_change = elim (Bool-cases (ltb (length t.samples) t.capacity)) [
  | inl room ↦ absurd (some_change (rw room refl))
  | inr full ↦ elim (Bool-cases (is_zero (adjustment (min_margin t) target))) [
    | inl zero_change ↦
        absurd (some_change (rw full (is_zero→eq (adjustment (min_margin t) target) zero_change)))
    | inr change ↦ rw (full, change) refl
  ]
]

-- A change of the lead clears the window: until as many margins as it holds have come in again, every
-- suggestion is to leave the lead as it is.
pub suggest_adjustment-spaced :
    (t : LeadTracker) (target later_target : ℤ) (ms : List ℤ)
    → (suggest_adjustment t target).0 ≢ pos 0
    → length ms < t.capacity
    → (suggest_adjustment (pushes (suggest_adjustment t target).1 ms) later_target).0 ≡ pos 0
suggest_adjustment-spaced t target later_target ms some_change few =
    let start = cleared_by t target some_change in
    let size = length-pushes (clear t) ms in
    let room = capacity-pushes (clear t) ms in
    ap (λ u. (suggest_adjustment (pushes u ms) later_target).0) start
    ∙ partial_window (pushes (clear t) ms) later_target (omega (arith, size, room, few, emptied t))
  where
    emptied : (t : LeadTracker) → (length (clear t).samples ≡ 0) × ((clear t).capacity ≡ t.capacity)
    emptied t = unfold clear in (refl, refl)
