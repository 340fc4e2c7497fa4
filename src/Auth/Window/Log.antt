-- ===== src/Auth/Window/Log.antt =====
-- What the replay window promises, over a log of every accepted sequence number.
use orbitnet.Base.{
  ℕ, ◌+◌, ◌-◌, ◌≤◌, ◌<◌, ◌≡◌, ◌≢◌, refl, Bool, true, false, not, List, [], ◌∷◌, ltb, leb,
  if◌then◌else◌, arith, ◌==◌, ◌&&◌, ◌||◌, max, ==_cases, inl, inr,
}
use orbitnet.Auth.Window.{replay_window}

-- The specification: what was accepted so far, and its greatest element.
abbrev pub logged : ℕ → List ℕ → Bool
logged s [] = false
logged s (x ∷ xs) = if x == s then true else logged s xs

abbrev pub greatest : List ℕ → ℕ
greatest [] = 0
greatest (x ∷ xs) = max x (greatest xs)

-- A number is accepted if it is not 0, was not accepted before, and is no further than the window
-- behind the greatest accepted one.
unfoldable pub admit : List ℕ → ℕ → Bool
admit log seq = not (seq == 0) && (not (logged seq log) && leb (greatest log) (seq + replay_window))

unfoldable pub admissions : List ℕ → List ℕ → List Bool
admissions log [] = []
admissions log (seq ∷ seqs) =
    admit log seq ∷ admissions (if admit log seq then seq ∷ log else log) seqs

pub logged_above : (log : List ℕ) (s : ℕ) → greatest log < s → logged s log ≡ false
logged_above [] s h = refl
logged_above (x ∷ xs) s h = ground (arith, logged_above xs s)

pub logged_top : (log : List ℕ) (s : ℕ) → s ≡ greatest log → s ≢ 0 → logged s log ≡ true
logged_top [] s e nz = absurd (nz e)
logged_top (x ∷ xs) s e nz = ground (arith, logged_top xs s)

-- What the log says of a number that the window covers, or does not.
pub admit_zero : (log : List ℕ) (seq : ℕ) → seq ≡ 0 → admit log seq ≡ false
unfolding admit
admit_zero log seq z = ground (arith, z)

pub admit_ahead : (log : List ℕ) (seq : ℕ) → greatest log < seq → admit log seq ≡ true
unfolding admit
admit_ahead log seq ahead =
    let fresh = logged_above log seq ahead in
    let near : leb (greatest log) (seq + 64) ≡ true = ground arith in
    let nonzero : (seq == 0) ≡ false = ground arith in rw (fresh, near, nonzero) refl

pub admit_out :
    (log : List ℕ) (seq : ℕ)
    → seq ≢ 0
    → (greatest log - seq == 0 || ltb 64 (greatest log - seq)) ≡ true
    → seq ≤ greatest log
    → admit log seq ≡ false
unfolding admit
admit_out log seq nz out behind = elim (==_cases seq (greatest log)) [
  | inl (same, test) ↦ let seen = logged_top log seq same nz in rw seen (ground arith)
  | inr (ne, test) ↦
      let far : leb (greatest log) (seq + 64) ≡ false = ground arith in rw far (ground arith)
]

pub admit_inside :
    (log : List ℕ) (seq : ℕ)
    → seq ≢ 0
    → greatest log ≤ seq + 64
    → admit log seq ≡ not (logged seq log)
unfolding admit
admit_inside log seq nz near =
    let close : leb (greatest log) (seq + 64) ≡ true = ground arith in
    let nonzero : (seq == 0) ≡ false = ground arith in rw (close, nonzero) (ground arith)
