-- ===== src/Auth/Window/Refine.antt =====
-- The replay window answers as a log of every accepted sequence number would.
use orbitnet.Base.{
  ℕ, ◌+◌, ◌-◌, ◌≤◌, ◌<◌, ◌≡◌, ◌≢◌, refl, sym, ◌∙◌, ap, Bool, true, false, List, [], ◌∷◌, ltb,
  if◌then◌else◌, arith, get_or, set, length, length-set, get_or-set, ◌==◌, ◌||◌, ==_cases, ==_ne,
  Bool-cases, inl, inr, ltb→lt, get_or-replicate,
}
use orbitnet.Auth.Window.{ReplayWindow, new, shl, or_bit, accept}
use native.Mathlib.Decide.{dec_lt}
use orbitnet.Auth.Window.Log.{
  logged, greatest, admit, admissions, logged_above, logged_top, admit_zero, admit_ahead, admit_out,
  admit_inside,
}
use orbitnet.Auth.Window.Bits.{length-shl, get_or-shl, length-or_bit, get_or-or_bit}

unfoldable pub answers : ReplayWindow → List ℕ → List Bool
answers w [] = []
answers w (seq ∷ seqs) = (accept w seq).0 ∷ answers (accept w seq).1 seqs

-- The window that stands for a log.
pub record Stands (w : ReplayWindow) (log : List ℕ) : Type 0 where
  pub width : length w.bitmap ≡ 64
  pub top : w.newest ≡ greatest log
  pub bits :
      (s : ℕ)
      → s ≢ 0
      → s < w.newest
      → w.newest ≤ s + 64
      → get_or w.bitmap (w.newest - s - 1) false ≡ logged s log

-- The bit of a number behind the new newest one, by where it lies to the old newest one.
ahead-bits :
    (w : ReplayWindow) (log : List ℕ) (seq : ℕ)
    → Stands w log
    → w.newest < seq
    → (s : ℕ) → s ≢ 0
    → s < seq
    → seq ≤ s + 64
    → get_or (or_bit (shl w.bitmap (seq - w.newest)) (seq - w.newest - 1)) (seq - s - 1) false
      ≡ logged s (seq ∷ log)
ahead-bits w log seq h ahead s nz below near =
    let d = seq - w.newest in
    let i = seq - s - 1 in
    let read =
      get_or-or_bit (shl w.bitmap d) (d - 1) i (length-shl w.bitmap d h.width) (omega arith)
      ∙ ap (λ b. if d - 1 == i then true else b) (get_or-shl w.bitmap d i (omega arith)) in
    rw (==_ne seq s (omega arith)) (
      read ∙ elim (==_cases s w.newest) [
        | inl (same, test) ↦
            let here : (d - 1 == i) ≡ true = ground arith in
            rw here (sym (logged_top log s (omega (arith, h.top)) nz))
        | inr (ne, test) ↦
            let other : (d - 1 == i) ≡ false = ground arith in
            rw other (elim (dec_lt s w.newest) [
              | yes old ↦
                  let moved : ltb i d ≡ false = ground arith in
                  let place : i - d ≡ w.newest - s - 1 = omega arith in
                  rw (moved, place) (h.bits s nz old (omega arith))
              | no young ↦
                  let empty : ltb i d ≡ true = ground arith in
                  rw empty (sym (logged_above log s (omega (arith, h.top))))
            ])
      ])

ahead-Stands :
    (w : ReplayWindow) (log : List ℕ) (seq : ℕ)
    → Stands w log
    → w.newest < seq
    → Stands
        (record {
          newest = seq;
          bitmap = or_bit (shl w.bitmap (seq - w.newest)) (seq - w.newest - 1);
        })
        (seq ∷ log)
ahead-Stands w log seq h ahead = record {
  width =
      length-or_bit (shl w.bitmap (seq - w.newest)) (seq - w.newest - 1)
      ∙ length-shl w.bitmap (seq - w.newest) h.width;
  top = omega (arith, h.top);
  bits = ahead-bits w log seq h ahead;
}

-- A number in the window fills its bit.
behind-Stands :
    (w : ReplayWindow) (log : List ℕ) (seq : ℕ)
    → Stands w log
    → seq < w.newest
    → w.newest ≤ seq + 64
    → Stands (record w { bitmap = set w.bitmap (w.newest - seq - 1) true }) (seq ∷ log)
behind-Stands w log seq h behind near = record {
  width = length-set w.bitmap (w.newest - seq - 1) true ∙ h.width;
  top = omega (arith, h.top);
  bits = λ s nz below close.
      let i = w.newest - seq - 1 in
      let j = w.newest - s - 1 in
      let place : (i == j) ≡ (seq == s) = ground arith in
      get_or-set w.bitmap i j true false (omega (arith, h.width))
      ∙ rw (place, h.bits s nz below close) refl;
}

-- What one `accept` answers, and the log that its window stands for.
abbrev pub Agrees : ReplayWindow → List ℕ → ℕ → Type 0
Agrees w log seq =
    ((accept w seq).0 ≡ admit log seq)
    × Stands (accept w seq).1 (if admit log seq then seq ∷ log else log)

pub accept-Agrees : (w : ReplayWindow) (log : List ℕ) (seq : ℕ) → Stands w log → Agrees w log seq
unfolding accept
accept-Agrees w log seq h = elim (==_cases seq 0) [
  | inl (z, zero_test) ↦ rw (admit_zero log seq z, zero_test, accept) (refl, h)
  | inr (nz, zero_test) ↦ elim (Bool-cases (ltb w.newest seq)) [
    | inl ahead ↦
        let above = ltb→lt w.newest seq ahead in
        rw (admit_ahead log seq (omega (arith, h.top, above)), zero_test, ahead, accept)
          (refl, ahead-Stands w log seq h above)
    | inr not_ahead ↦
        let behind : seq ≤ w.newest = ground arith in
        elim (Bool-cases (w.newest - seq == 0 || ltb 64 (w.newest - seq))) [
          | inl out ↦
              let refused = admit_out log seq nz (rw h.top at out) (omega (arith, h.top, behind)) in
              rw (refused, zero_test, not_ahead, out, accept) (refl, h)
          | inr inside ↦
              let below : seq < w.newest = ground arith in
              let near : w.newest ≤ seq + 64 = ground arith in
              let admitted = admit_inside log seq nz (omega (arith, h.top, near)) in
              let bit = h.bits seq nz below near in
              elim (Bool-cases (logged seq log)) [
                | inl seen ↦
                    rw (admitted, zero_test, not_ahead, inside, bit, seen, accept) (refl, h)
                | inr fresh ↦
                    rw (admitted, zero_test, not_ahead, inside, bit, fresh, accept)
                      (refl, behind-Stands w log seq h below near)
              ]
        ]
  ]
]

answers-admissions :
    (seqs : List ℕ) (w : ReplayWindow) (log : List ℕ)
    → Stands w log
    → answers w seqs ≡ admissions log seqs
unfolding answers admissions
answers-admissions [] w log h = refl
answers-admissions (seq ∷ seqs) w log h =
    let (same, next) = accept-Agrees w log seq h in
    rw
      (
        same,
        answers-admissions seqs (accept w seq).1 (if admit log seq then seq ∷ log else log) next,
      )
      refl

pub new-Stands : Stands new []
unfolding new
new-Stands = record {
  width = refl;
  top = refl;
  bits = λ s nz below near. get_or-replicate 64 (0 - s - 1) false;
}

-- Whatever sequence numbers arrive and in whatever order, a new window accepts exactly the nonzero
-- ones that were not accepted before and lie at most `REPLAY_WINDOW` behind the greatest accepted.
pub answers-new : (seqs : List ℕ) → answers new seqs ≡ admissions [] seqs
answers-new seqs = answers-admissions seqs new [] new-Stands
