-- ===== src/Auth/Budget.antt =====
-- `ReceiveBudget` of auth.rs: what one peer may spend of the receive path in one tick.
use orbitnet.Base.{
  ℕ, suc, ◌+◌, ◌-◌, ◌%◌, ◌^◌, ◌<◌, ◌≡◌, ◌≢◌, ◌∙◌, refl, ap, ==_ne, Bool, true, false, not, ◌||◌,
  List, [], ◌∷◌, ◌==◌, if◌then◌else◌, leb, arith, inl, inr, Bool-cases, ==_self, min,
}

abbrev pub max_input_blocks_per_tick : ℕ
max_input_blocks_per_tick = 64

abbrev pub max_foreign_input_blocks_per_tick : ℕ
max_foreign_input_blocks_per_tick = 8

pub record ReceiveBudget : Type 0 where
  pub tick : ℕ
  pub blocks : ℕ
  pub foreign : ℕ
  pub started : Bool

abbrev pub new : ReceiveBudget
new = record { tick = 0; blocks = 0; foreign = 0; started = false }

unfoldable pub open_tick : ReceiveBudget → ℕ → ReceiveBudget
open_tick b t =
    if not b.started || not (t == b.tick)
    then record { tick = t; blocks = 0; foreign = 0; started = true }
    else b

-- The answer, and the budget after it.
unfoldable pub admit : ReceiveBudget → Bool × ReceiveBudget
admit b =
    if leb max_input_blocks_per_tick b.blocks
    then (false, b)
    else (true, record b { blocks = b.blocks + 1 })

-- The counter is a u32, and `+= 1` on it wraps.
unfoldable pub note_foreign : ReceiveBudget → Bool × ReceiveBudget
note_foreign b =
    let foreign = (b.foreign + 1) % 2 ^ 32 in
    (leb foreign max_foreign_input_blocks_per_tick, record b { foreign = foreign })

-- A call of the receive path, and the budget after it.
pub data Call : Type 0 where
  opens : ℕ → Call
  admits : Call
  notes : Call

abbrev pub called : ReceiveBudget → Call → ReceiveBudget
called b (opens t) = open_tick b t
called b admits = (admit b).1
called b notes = (note_foreign b).1

abbrev as_count : Bool → ℕ
as_count true = 1
as_count false = 0

-- The blocks asked for, and the foreign ones noted.
abbrev pub asked : List Call → ℕ
asked [] = 0
asked (admits ∷ cs) = suc (asked cs)
asked (_ ∷ cs) = asked cs

abbrev pub noted : List Call → ℕ
noted [] = 0
noted (notes ∷ cs) = suc (noted cs)
noted (_ ∷ cs) = noted cs

-- The calls of each kind that are answered `true`.
abbrev pub granted : ReceiveBudget → List Call → ℕ
granted b [] = 0
granted b (admits ∷ cs) = as_count (admit b).0 + granted (called b admits) cs
granted b (c ∷ cs) = granted (called b c) cs

abbrev pub tolerated : ReceiveBudget → List Call → ℕ
tolerated b [] = 0
tolerated b (notes ∷ cs) = as_count (note_foreign b).0 + tolerated (called b notes) cs
tolerated b (c ∷ cs) = tolerated (called b c) cs

-- Every frame of the calls opens the tick `t`.
abbrev pub IsInTick : ℕ → List Call → Type 0
IsInTick t [] = Unit
IsInTick t (opens u ∷ cs) = (u ≡ t) × IsInTick t cs
IsInTick t (_ ∷ cs) = IsInTick t cs

record IsOpen (t : ℕ) (b : ReceiveBudget) : Type 0 where
  tick : b.tick ≡ t
  started : b.started ≡ true

open_tick-again : (b : ReceiveBudget) (u t : ℕ) → IsOpen t b → u ≡ t → open_tick b u ≡ b
unfolding open_tick
open_tick-again b u t o e =
    let same : (u == b.tick) ≡ true = rw (e, o.tick) (==_self t) in rw (o.started, same) refl

admit-IsOpen : (b : ReceiveBudget) (t : ℕ) → IsOpen t b → IsOpen t (admit b).1
unfolding admit
admit-IsOpen b t o = elim (Bool-cases (leb max_input_blocks_per_tick b.blocks)) [
  | inl full ↦ rw full o
  | inr room ↦ rw room (record { tick = o.tick; started = o.started })
]

note_foreign-IsOpen : (b : ReceiveBudget) (t : ℕ) → IsOpen t b → IsOpen t (note_foreign b).1
unfolding note_foreign
note_foreign-IsOpen b t o = record { tick = o.tick; started = o.started }

granted_once :
    (b : ReceiveBudget) (n : ℕ)
    → as_count (admit b).0 + min n (64 - (admit b).1.blocks) ≡ min (suc n) (64 - b.blocks)
unfolding admit
granted_once b n = ground arith

tolerated_once :
    (f n : ℕ)
    → f + 1 < 2 ^ 32
    → as_count (leb ((f + 1) % 2 ^ 32) 8) + min n (8 - (f + 1) % 2 ^ 32) ≡ min (suc n) (8 - f)
tolerated_once f n h =
    let same : (f + 1) % 2 ^ 32 ≡ f + 1 = omega (arith, h) in rw same (ground arith)

blocks-note_foreign : (b : ReceiveBudget) → (note_foreign b).1.blocks ≡ b.blocks
unfolding note_foreign
blocks-note_foreign b = refl

foreign-admit : (b : ReceiveBudget) → (admit b).1.foreign ≡ b.foreign
unfolding admit
foreign-admit b = elim (Bool-cases (leb max_input_blocks_per_tick b.blocks)) [
  | inl full ↦ rw full refl
  | inr room ↦ rw room refl
]

granted-IsInTick :
    (b : ReceiveBudget) (t : ℕ) (cs : List Call)
    → IsOpen t b
    → IsInTick t cs
    → granted b cs ≡ min (asked cs) (64 - b.blocks)
granted-IsInTick b t [] o h = omega arith
granted-IsInTick b t (opens u ∷ cs) o h =
    rw (open_tick-again b u t o h.0) (granted-IsInTick b t cs o h.1)
granted-IsInTick b t (admits ∷ cs) o h =
    ap (λ (g : ℕ). as_count (admit b).0 + g)
      (granted-IsInTick (admit b).1 t cs (admit-IsOpen b t o) h)
    ∙ granted_once b (asked cs)
granted-IsInTick b t (notes ∷ cs) o h =
    granted-IsInTick (note_foreign b).1 t cs (note_foreign-IsOpen b t o) h
    ∙ ap (λ (k : ℕ). min (asked cs) (64 - k)) (blocks-note_foreign b)

tolerated-IsInTick :
    (b : ReceiveBudget) (t : ℕ) (cs : List Call)
    → IsOpen t b
    → IsInTick t cs
    → b.foreign + noted cs < 2 ^ 32
    → tolerated b cs ≡ min (noted cs) (8 - b.foreign)
unfolding note_foreign
tolerated-IsInTick b t [] o h few = omega arith
tolerated-IsInTick b t (opens u ∷ cs) o h few =
    rw (open_tick-again b u t o h.0) (tolerated-IsInTick b t cs o h.1 few)
tolerated-IsInTick b t (admits ∷ cs) o h few =
    tolerated-IsInTick (admit b).1 t cs (admit-IsOpen b t o) h (omega (arith, few, foreign-admit b))
    ∙ ap (λ (k : ℕ). min (noted cs) (8 - k)) (foreign-admit b)
tolerated-IsInTick b t (notes ∷ cs) o h few =
    ap (λ (g : ℕ). as_count (note_foreign b).0 + g)
      (tolerated-IsInTick (note_foreign b).1 t cs (note_foreign-IsOpen b t o) h
        (omega (arith, few)))
    ∙ tolerated_once b.foreign (noted cs) (omega (arith, few))

-- A tick that starts, by the first frame of it, grants exactly the first 64 blocks that are asked
-- for in it and tolerates exactly the first 8 foreign ones, in whatever frames and whatever order
-- they come: where `t` is not the tick of `b`, the calls open no other tick and note fewer than 2^32
-- foreign blocks, at which the counter would wrap, the answers `true` are as many as the calls, up
-- to those two limits.
pub granted-open_tick :
    (b : ReceiveBudget) (t : ℕ) (cs : List Call)
    → t ≢ b.tick
    → IsInTick t cs
    → noted cs < 2 ^ 32
    → (granted (open_tick b t) cs ≡ min (asked cs) max_input_blocks_per_tick)
      × (tolerated (open_tick b t) cs ≡ min (noted cs) max_foreign_input_blocks_per_tick)
unfolding open_tick
granted-open_tick b t cs fresh h few =
    let fresh_test = ==_ne t b.tick fresh in
    let reset : open_tick b t ≡ record { tick = t; blocks = 0; foreign = 0; started = true } =
      rw fresh_test (elim (Bool-cases b.started) [ inl e ↦ rw e refl | inr e ↦ rw e refl ]) in
    let o : IsOpen t (record { tick = t; blocks = 0; foreign = 0; started = true }) = record {
      tick = refl;
      started = refl;
    } in
    rw reset (granted-IsInTick _ t cs o h, tolerated-IsInTick _ t cs o h (omega (arith, few)))
