-- ===== src/Auth/Tests.antt =====
-- The replay window, the hash and the receive budget at concrete inputs.
use orbitnet.Base.{arith, take, ◌++◌, ◌≡◌, refl, true, false, [], ◌∷◌}
use orbitnet.Wire.Bytes.{Bytes, le_value}
use orbitnet.Auth.Budget.{
  ReceiveBudget, opens, admits, notes, open_tick, admit, note_foreign, granted, tolerated,
  granted-open_tick,
}
use orbitnet.Auth.Sip
use orbitnet.Auth.Sip.{siphash24, write, finish, absorb, round, fill, blocks, drained, chunks}
use orbitnet.Auth.Sip.Pieces.{write-append, new-IsTail}
use orbitnet.Auth.Window.{new, accept, shl, or_bit}
use orbitnet.Auth.Window.Log.{admissions}
use orbitnet.Auth.Window.Refine.{answers, answers-new}

-- A jump of exactly the window keeps the old newest one's bit.
window_runs :
    answers new (1 ∷ 5 ∷ 3 ∷ 5 ∷ 3 ∷ 69 ∷ 5 ∷ 4 ∷ 0 ∷ [])
    ≡ true ∷ true ∷ true ∷ false ∷ false ∷ true ∷ false ∷ false ∷ false ∷ []
unfolding answers new accept shl or_bit
window_runs = refl

answers-new_example :
    answers new (1 ∷ 5 ∷ 3 ∷ 5 ∷ 69 ∷ 5 ∷ []) ≡ admissions [] (1 ∷ 5 ∷ 3 ∷ 5 ∷ 69 ∷ 5 ∷ [])
answers-new_example = answers-new (1 ∷ 5 ∷ 3 ∷ 5 ∷ 69 ∷ 5 ∷ [])

-- The reference vectors of SipHash-2-4.
abbrev ref_key : Bytes
ref_key = 0 ∷ 1 ∷ 2 ∷ 3 ∷ 4 ∷ 5 ∷ 6 ∷ 7 ∷ 8 ∷ 9 ∷ 10 ∷ 11 ∷ 12 ∷ 13 ∷ 14 ∷ 15 ∷ []

sip_runs :
    (siphash24 ref_key [] ≡ 8246050544436514353)
    × (siphash24 ref_key (take 7 ref_key) ≡ 12322412585038238007)
    × (siphash24 ref_key (take 8 ref_key) ≡ 10661697595502699618)
    × (siphash24 ref_key (take 15 ref_key) ≡ 11613035633349379557)
unfolding siphash24 write finish absorb round fill blocks drained chunks le_value Sip.new
sip_runs = (refl, refl, refl, refl)

write-append_example :
    write (write (Sip.new ref_key) (take 5 ref_key)) ref_key
    ≡ write (Sip.new ref_key) (take 5 ref_key ++ ref_key)
write-append_example = write-append (Sip.new ref_key) (take 5 ref_key) ref_key (new-IsTail ref_key)

-- The second frame of a tick, after the tick's blocks are spent but for two.
abbrev busy : ReceiveBudget
busy = record { tick = 4; blocks = 62; foreign = 7; started = true }

-- In the same tick two blocks and one foreign one are left.
busy_runs :
    (granted busy (opens 4 ∷ admits ∷ notes ∷ admits ∷ notes ∷ admits ∷ []) ≡ 2)
    × (tolerated busy (opens 4 ∷ admits ∷ notes ∷ admits ∷ notes ∷ admits ∷ []) ≡ 1)
unfolding open_tick admit note_foreign
busy_runs = (refl, refl)

granted-open_tick_example :
    (granted (open_tick busy 5) (admits ∷ notes ∷ opens 5 ∷ admits ∷ []) ≡ 2)
    × (tolerated (open_tick busy 5) (admits ∷ notes ∷ opens 5 ∷ admits ∷ []) ≡ 1)
granted-open_tick_example =
    granted-open_tick busy 5 (admits ∷ notes ∷ opens 5 ∷ admits ∷ []) (λ e. ground arith) (refl, tt)
      (omega arith)
