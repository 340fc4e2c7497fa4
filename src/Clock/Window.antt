-- ===== src/Clock/Window.antt =====
-- Which probes the estimator holds.
use orbitnet.Base.{
  ℕ, ◌<◌, ◌≡◌, refl, sym, ◌∙◌, ap, subst, max, Bool, true, false, not, ◌||◌, Bool-cases, List, [],
  ◌∷◌, ◌++◌, inl, inr, if◌then◌else◌, arith,
}
use mathlib.Core.List.{append_assoc, append-nil}
use orbitnet.Base.Doubles.{is_finite_f64, lt_f64}
use orbitnet.Base.Rolling.{rolled, in_order, last, Rolls, Rolls-in_order, Rolls-rolled}
use orbitnet.Clock.{Sample, ClockEstimator, with_capacity, push_sample}

-- The probes that are not poison, in the order they arrive.
abbrev pub accepted : List Sample → List Sample
accepted [] = []
accepted (s ∷ ss) =
    let rest = accepted ss in
    if not (is_finite_f64 s.rtt) || not (is_finite_f64 s.offset) || lt_f64 s.rtt 0
    then rest
    else s ∷ rest

unfoldable pub probes : ClockEstimator → List Sample → ClockEstimator
probes e [] = e
probes e (s ∷ ss) = probes (push_sample e s.rtt s.offset).1 ss

abbrev is_poison : Sample → Bool
is_poison s = not (is_finite_f64 s.rtt) || not (is_finite_f64 s.offset) || lt_f64 s.rtt 0

push_sample_poison :
    (e : ClockEstimator) (s : Sample) → is_poison s ≡ true → (push_sample e s.rtt s.offset).1 ≡ e
unfolding push_sample
push_sample_poison e s bad = rw bad refl

abbrev pushed_on : ClockEstimator → Sample → ClockEstimator
pushed_on e s =
    let r = rolled e.samples e.capacity e.next s in record e { samples = r.0; next = r.1 }

push_sample_sound :
    (e : ClockEstimator) (s : Sample)
    → is_poison s ≡ false
    → (push_sample e s.rtt s.offset).1 ≡ pushed_on e s
unfolding push_sample
push_sample_sound e s good = rw good refl

accepted_poison :
    (s : Sample) (ss : List Sample) → is_poison s ≡ true → accepted (s ∷ ss) ≡ accepted ss
accepted_poison s ss bad = rw bad refl

accepted_sound :
    (s : Sample) (ss : List Sample) → is_poison s ≡ false → accepted (s ∷ ss) ≡ s ∷ accepted ss
accepted_sound s ss good = rw good refl

-- The window of `capacity` after some probes.
abbrev Probed : ℕ → ClockEstimator → List Sample → List Sample → Type 0
Probed capacity e ss taken = Rolls capacity taken (probes e ss).samples (probes e ss).next

Rolls-probes :
    (e : ClockEstimator) (ss taken : List Sample)
    → 0 < e.capacity
    → Rolls e.capacity taken e.samples e.next
    → Probed e.capacity e ss (taken ++ accepted ss)
unfolding probes
Rolls-probes e [] taken room h = rw (append-nil taken) h
Rolls-probes e (s ∷ ss) taken room h = elim (Bool-cases (is_poison s)) [
  | inl bad ↦
      subst (λ u. Probed e.capacity u ss (taken ++ accepted (s ∷ ss)))
        (sym (push_sample_poison e s bad))
        (subst (λ l. Probed e.capacity e ss (taken ++ l)) (sym (accepted_poison s ss bad))
          (Rolls-probes e ss taken room h))
  | inr good ↦
      let next_window = Rolls-rolled e.capacity taken e.samples e.next s room h in
      let rest = Rolls-probes (pushed_on e s) ss (taken ++ (s ∷ [])) room next_window in
      subst (λ u. Probed e.capacity u ss (taken ++ accepted (s ∷ ss)))
        (sym (push_sample_sound e s good))
        (subst (λ l. Probed e.capacity (pushed_on e s) ss l)
          (append_assoc taken (s ∷ []) (accepted ss)
            ∙ sym (ap (λ l. taken ++ l) (accepted_sound s ss good)))
          rest)
]

-- Whatever probes arrive at a new estimator, it holds the newest of those that are not poison, as many
-- as its capacity, and nothing else.
pub probes-last :
    (n : ℕ) (ss : List Sample)
    → in_order (probes (with_capacity n) ss).samples (probes (with_capacity n) ss).next
      ≡ last (max n 1) (accepted ss)
unfolding with_capacity
probes-last n ss =
    Rolls-in_order (max n 1) (accepted ss) (probes (with_capacity n) ss).samples
      (probes (with_capacity n) ss).next
      (Rolls-probes (with_capacity n) ss [] (omega arith) (inl (omega arith, refl, refl)))
