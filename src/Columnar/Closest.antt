-- ===== src/Columnar/Closest.antt =====
-- The search for the newest row that is not after a tick.
use orbitnet.Base.{
  ℕ, zero, suc, ◌-◌, ◌≤◌, ◌<◌, ◌≡◌, refl, ◌∙◌, ◌⊎◌, ap, subst, ==_cases, Option, none, some, inl,
  inr, arith,
}
use orbitnet.Wire.Bytes.{Bytes}
use orbitnet.Columnar.{ColumnarHistory, capacity, row, probe_down, closest_at_or_before}

-- No tick from `floor` to `tick` has a row, or the answer is the last one that has.
abbrev pub IsClosest : ColumnarHistory → ℕ → ℕ → Option (ℕ × Bytes) → Type 0
IsClosest h floor tick none = (t : ℕ) → floor ≤ t → t ≤ tick → row h t ≡ none
IsClosest h floor tick (some (found, r)) =
    (floor ≤ found)
    × (found ≤ tick)
    × (row h found ≡ some r)
    × ((t : ℕ) → found < t → t ≤ tick → row h t ≡ none)

tick_or_before : (t tick : ℕ) → t ≤ tick → (t ≡ tick) ⊎ (t < tick)
tick_or_before t tick h = elim (==_cases t tick) [
  | inl (e, _) ↦ inl e
  | inr (ne, _) ↦ inr (ground (arith, h, ne))
]

closer :
    (h : ColumnarHistory) (floor tick : ℕ) (answer : Option (ℕ × Bytes))
    → floor < tick
    → row h tick ≡ none
    → IsClosest h floor (tick - 1) answer
    → IsClosest h floor tick answer
closer h floor tick none less gone c = λ t hf ht. elim (tick_or_before t tick ht) [
  | inl e ↦ ap (row h) e ∙ gone
  | inr before ↦ c t hf (omega (arith, before))
]
closer h floor tick (some (found, r)) less gone c = (
  c.0,
  omega (arith, c.1),
  c.2,
  λ t hf ht. elim (tick_or_before t tick ht) [
    | inl e ↦ ap (row h) e ∙ gone
    | inr before ↦ c.3 t hf (omega (arith, before))
  ],
)

at_probe :
    (h : ColumnarHistory) (floor probe : ℕ) (below : Option (ℕ × Bytes)) (o : Option Bytes)
    → row h probe ≡ o
    → floor ≤ probe
    → (row h probe ≡ none → IsClosest h floor probe below)
    → IsClosest h floor probe (elim o [ some r ↦ some (probe, r) | none ↦ below ])
at_probe h floor probe below none e hf rest = rest e
at_probe h floor probe below (some r) e hf rest =
    (hf, omega arith, e, λ t ha hb. absurd (omega (arith, ha, hb)))

probe_down-IsClosest :
    (h : ColumnarHistory) (n probe : ℕ)
    → n ≤ probe
    → IsClosest h (probe - n) probe (probe_down h n probe)
unfolding probe_down
probe_down-IsClosest h zero probe hn =
    at_probe h (probe - 0) probe none (row h probe) refl (omega arith)
      (λ gone t hf ht. let last : t ≡ probe = omega (arith, hf, ht) in ap (row h) last ∙ gone)
probe_down-IsClosest h (suc n) probe hn =
    let below : IsClosest h (probe - 1 - n) (probe - 1) (probe_down h n (probe - 1)) =
      probe_down-IsClosest h n (probe - 1) (omega (arith, hn)) in
    let floor : probe - 1 - n ≡ probe - suc n = omega arith in
    let lower : IsClosest h (probe - suc n) (probe - 1) (probe_down h n (probe - 1)) =
      subst (λ k. IsClosest h k (probe - 1) (probe_down h n (probe - 1))) floor below in
    at_probe h (probe - suc n) probe (probe_down h n (probe - 1)) (row h probe) refl (omega arith)
      (λ gone.
        closer h (probe - suc n) probe (probe_down h n (probe - 1)) (omega (arith, hn)) gone lower)

-- The search answers the newest row at or before the tick within one capacity, and nothing only when
-- no tick of that window has a row.
pub closest_at_or_before-IsClosest :
    (h : ColumnarHistory) (tick : ℕ)
    → IsClosest h (tick - (capacity h - 1)) tick (closest_at_or_before h tick)
unfolding closest_at_or_before
closest_at_or_before-IsClosest h tick =
    let floor = tick - (capacity h - 1) in
    let back : tick - (tick - floor) ≡ floor = omega arith in
    subst (λ k. IsClosest h k tick (probe_down h (tick - floor) tick)) back
      (probe_down-IsClosest h (tick - floor) tick (omega arith))
