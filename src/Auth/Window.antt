-- ===== src/Auth/Window.antt =====
-- `ReplayWindow` of auth.rs. The u64 bitmap is the list of its 64 bits, the lowest first.
pub mod Bits
pub mod Log
pub mod Refine
pub mod Once
use orbitnet.Base.{
  ℕ, ◌+◌, ◌-◌, Bool, true, false, List, [], ◌∷◌, ◌++◌, ltb, ◌==◌, ◌||◌, if◌then◌else◌, get_or, set,
  take, replicate,
}

abbrev pub replay_window : ℕ
replay_window = 64

pub record ReplayWindow : Type 0 where
  pub newest : ℕ
  pub bitmap : List Bool

unfoldable pub new : ReplayWindow
new = record { newest = 0; bitmap = replicate 64 false }

-- `checked_shl(shift).unwrap_or(0)`.
unfoldable pub shl : List Bool → ℕ → List Bool
shl bits shift =
    if ltb shift 64 then take 64 (replicate shift false ++ bits) else replicate 64 false

-- `|= 1 << bit`, where `checked_shl` yields the bit.
unfoldable pub or_bit : List Bool → ℕ → List Bool
or_bit bits bit = if ltb bit 64 then set bits bit true else bits

-- `accept`: the flag is the method's result.
unfoldable pub accept : ReplayWindow → ℕ → Bool × ReplayWindow
unfolding shl or_bit
accept w seq =
    if seq == 0
    then (false, w)
    else if ltb w.newest seq
    then (
      true,
      record { newest = seq; bitmap = or_bit (shl w.bitmap (seq - w.newest)) (seq - w.newest - 1) },
    )
    else if w.newest - seq == 0 || ltb replay_window (w.newest - seq)
    then (false, w)
    else if get_or w.bitmap (w.newest - seq - 1) false
    then (false, w)
    else (true, record w { bitmap = set w.bitmap (w.newest - seq - 1) true })
