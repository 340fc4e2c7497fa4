-- ===== src/Clock/Laws.antt =====
-- The sort of the estimator never meets a round trip that does not compare.
use orbitnet.Base.{
  ℕ, zero, suc, ◌≡◌, refl, ap, subst, Bool, true, false, not, ◌||◌, Bool-cases, Option, none, some,
  List, [], ◌∷◌, map, inl, inr, ltb, ◌==◌, length, set, if◌then◌else◌, All, All-append, is_some,
  arith,
}
use orbitnet.Base.Doubles.{is_finite_f64, is_nan_f64, lt_f64, le_f64, Double, one_f64}
use orbitnet.Clock.{
  Sample, ClockEstimator, sample_count, with_capacity, clear, push_sample, is_behind, placed,
  insert, inserted, sort_by_rtt, apply_local_correction, mean_of_best, offset, has_no_stretch,
  clamped_stretch, stretch, plus, is_beyond, needs_hard_resync_with_lead,
}

-- A round trip that compares.
abbrev pub IsTimed : Sample → Type 0
IsTimed s = is_finite_f64 s.rtt ≡ true

finite-not_nan : (bits : ℕ) → is_finite_f64 bits ≡ true → is_nan_f64 bits ≡ false
finite-not_nan bits h = ground (arith, h)

is_behind-some : (a b : Sample) → IsTimed a → IsTimed b → is_behind a b ≡ some (lt_f64 b.rtt a.rtt)
is_behind-some a b ha hb =
    let not_a = finite-not_nan a.rtt ha in
    let not_b = finite-not_nan b.rtt hb in rw (not_a, not_b) refl

-- A sort that comes to an end, with the same samples.
abbrev IsSorted : ℕ → Option (List Sample) → Type 0
IsSorted n none = ⊥
IsSorted n (some ss) = All IsTimed ss × (length ss ≡ n)

placed-IsSorted :
    (s t : Sample) (ts : List Sample) (behind : Bool) (later : Option (List Sample))
    → IsTimed s
    → IsTimed t
    → All IsTimed ts
    → IsSorted (suc (length ts)) later
    → IsSorted (suc (suc (length ts))) (placed s t ts (some behind) later)
placed-IsSorted s t ts false later hs ht all h = ((hs, (ht, all)), refl)
placed-IsSorted s t ts true none hs ht all h = absurd h
placed-IsSorted s t ts true (some later) hs ht all h = ((ht, h.0), ap suc h.1)

insert-IsSorted :
    (s : Sample) (ts : List Sample)
    → IsTimed s
    → All IsTimed ts
    → IsSorted (suc (length ts)) (insert s ts)
insert-IsSorted s [] hs all = ((hs, tt), refl)
insert-IsSorted s (t ∷ ts) hs all = rw (is_behind-some s t hs all.0) (
    placed-IsSorted s t ts (lt_f64 t.rtt s.rtt) (insert s ts) hs all.0 all.1
      (insert-IsSorted s ts hs all.1))

sort_by_rtt-IsSorted : (ss : List Sample) → All IsTimed ss → IsSorted (length ss) (sort_by_rtt ss)
sort_by_rtt-IsSorted [] all = (tt, refl)
sort_by_rtt-IsSorted (s ∷ ss) all = step (sort_by_rtt ss) (sort_by_rtt-IsSorted ss all.1)
  where
    step :
        (o : Option (List Sample))
        → IsSorted (length ss) o
        → IsSorted (suc (length ss)) (inserted s o)
    step none h = absurd h
    step (some ts) h =
        subst (λ n. IsSorted (suc n) (insert s ts)) h.1 (insert-IsSorted s ts all.0 h.0)

-- What a client does with its estimator.
pub data Event : Type 0 where
  probed : ℕ → ℕ → Event
  corrected : ℕ → Event
  resynced : Event

module _ (d : Double) where
  unfoldable pub happened : ClockEstimator → Event → ClockEstimator
  happened e (probed rtt seconds) = (push_sample e rtt seconds).1
  happened e (corrected seconds) = apply_local_correction d e seconds
  happened e resynced = clear e

  unfoldable pub after_events : ClockEstimator → List Event → ClockEstimator
  unfolding happened
  after_events e [] = e
  after_events e (event ∷ events) = after_events (happened e event) events

  set-IsTimed :
      (ss : List Sample) (i : ℕ) (s : Sample)
      → IsTimed s
      → All IsTimed ss
      → All IsTimed (set ss i s)
  set-IsTimed [] i s hs all = tt
  set-IsTimed (t ∷ ts) zero s hs all = (hs, all.1)
  set-IsTimed (t ∷ ts) (suc i) s hs all = (all.0, set-IsTimed ts i s hs all.1)

  push_sample-IsTimed :
      (e : ClockEstimator) (rtt seconds : ℕ)
      → All IsTimed e.samples
      → All IsTimed (push_sample e rtt seconds).1.samples
  unfolding push_sample
  push_sample-IsTimed e rtt seconds all = elim (Bool-cases (is_finite_f64 rtt)) [
    | inr poison ↦ rw poison all
    | inl finite ↦ elim (Bool-cases (not (is_finite_f64 seconds) || lt_f64 rtt 0)) [
      | inl bad ↦ rw (finite, bad) all
      | inr good ↦
          rw (finite, good)
            (elim (Bool-cases (ltb (length e.samples) e.capacity)) [
              | inl room ↦ rw room (All-append IsTimed e.samples _ all (finite, tt))
              | inr full ↦ rw full (set-IsTimed e.samples e.next _ finite all)
            ])
    ]
  ]

  corrected-IsTimed :
      (seconds : ℕ) (ss : List Sample)
      → All IsTimed ss
      → All IsTimed (map (λ s. record { rtt = s.rtt; offset = d.sub s.offset seconds }) ss)
  corrected-IsTimed seconds [] all = tt
  corrected-IsTimed seconds (s ∷ ss) all = (all.0, corrected-IsTimed seconds ss all.1)

  happened-IsTimed :
      (e : ClockEstimator) (event : Event)
      → All IsTimed e.samples
      → All IsTimed (happened e event).samples
  unfolding happened apply_local_correction clear
  happened-IsTimed e (probed rtt seconds) all = push_sample-IsTimed e rtt seconds all
  happened-IsTimed e (corrected seconds) all = elim (Bool-cases (is_finite_f64 seconds)) [
    | inl finite ↦ rw finite (corrected-IsTimed seconds e.samples all)
    | inr poison ↦ rw poison all
  ]
  happened-IsTimed e resynced all = tt

  after_events-IsTimed :
      (e : ClockEstimator) (events : List Event)
      → All IsTimed e.samples
      → All IsTimed (after_events e events).samples
  unfolding after_events
  after_events-IsTimed e [] all = all
  after_events-IsTimed e (event ∷ events) all =
      after_events-IsTimed (happened e event) events (happened-IsTimed e event all)

  offset-some : (e : ClockEstimator) → All IsTimed e.samples → is_some (offset d e) ≡ true
  unfolding offset
  offset-some e all = elim (Bool-cases (sample_count e == 0)) [
    | inl empty ↦ rw empty refl
    | inr held ↦ rw held (found (sort_by_rtt e.samples) (sort_by_rtt-IsSorted e.samples all))
  ]
    where
      found :
          (o : Option (List Sample))
          → IsSorted (length e.samples) o
          → is_some (mean_of_best d o) ≡ true
      found none h = absurd h
      found (some ss) h = refl

  -- Whatever probes arrive, poisoned ones included, and whatever corrections and resyncs come between
  -- them, the estimator's sort meets no round trip that does not compare: its offset, the stretch and
  -- the resync test all have an answer.
  pub after_events-answers :
      (n : ℕ) (events : List Event) (max_stretch correction_window panic_threshold lead : ℕ)
      → (is_some (offset d (after_events (with_capacity n) events)) ≡ true)
        × (is_some (stretch d (after_events (with_capacity n) events) max_stretch correction_window)
            ≡ true)
        × (is_some (
              needs_hard_resync_with_lead d
                (after_events (with_capacity n) events)
                panic_threshold
                lead)
            ≡ true)
  unfolding stretch needs_hard_resync_with_lead with_capacity
  after_events-answers n events max_stretch correction_window panic_threshold lead =
      let e = after_events (with_capacity n) events in
      let some_offset = offset-some e (after_events-IsTimed (with_capacity n) events tt) in
      (
        some_offset,
        either (has_no_stretch d max_stretch correction_window) (some one_f64) _ refl
            (clamped (offset d e) some_offset),
        either
            (not (is_finite_f64 panic_threshold) || le_f64 panic_threshold 0 || sample_count e == 0)
            (some false) _ refl
            (beyond (if is_finite_f64 lead then lead else 0) (offset d e) some_offset),
      )
    where
      either :
          {A : Type 0} (b : Bool) (first o : Option A)
          → is_some first ≡ true
          → is_some o ≡ true
          → is_some (if b then first else o) ≡ true
      either true first o hf ho = hf
      either false first o hf ho = ho

      clamped :
          (o : Option ℕ)
          → is_some o ≡ true
          → is_some (clamped_stretch d max_stretch correction_window o) ≡ true
      clamped none h = cc h
      clamped (some seconds) h = refl

      beyond :
          (extra : ℕ) (o : Option ℕ)
          → is_some o ≡ true
          → is_some (is_beyond d panic_threshold (plus d extra o)) ≡ true
      beyond extra none h = cc h
      beyond extra (some seconds) h = refl
