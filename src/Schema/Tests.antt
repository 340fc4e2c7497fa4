-- ===== src/Schema/Tests.antt =====
-- Runs of the schema of a row.
use orbitnet.Base.{ℕ, ◌≡◌, refl, List, [], ◌∷◌}
use orbitnet.Schema.{
  bool, f32, quat, transform, QuantKind, ss3, half, state, input, cosmetic, SchemaBuilder, new,
  stride, valid_for, push_quantized, indices, restored, is_restored, triggers_resim,
  resim_triggering,
}
use orbitnet.Schema.Layout.{Fills, Push, built, built-Fills}

-- A flag, an orientation with a quantizer that fits, and a transform with one that does not.
abbrev pushes : List Push
pushes =
    record { name = 97 ∷ []; kind = bool; role = input; quant = QuantKind.none }
    ∷ record { name = 98 ∷ []; kind = quat; role = state; quant = ss3 }
    ∷ record { name = 99 ∷ []; kind = transform; role = cosmetic; quant = half }
    ∷ []

built-Fills_example : Fills 0 (built new pushes).props (built new pushes).row_stride
built-Fills_example = built-Fills pushes

built_runs :
    ((built new pushes).row_stride ≡ 65)
    × (restored (built new pushes) ≡ 0 ∷ 1 ∷ [])
    × (resim_triggering (built new pushes) ≡ 1 ∷ [])
unfolding built push_quantized valid_for stride restored resim_triggering indices is_restored
    triggers_resim
built_runs = (refl, refl, refl)

abbrev schema : ℕ → SchemaBuilder
schema name = (push_quantized new (name ∷ []) f32 state half).0
