-- ===== src/Schema/Layout.antt =====
-- The layout of a row: every property stands behind the ones pushed before it.
use orbitnet.Base.{
  ℕ, ◌+◌, ◌≤◌, ◌≡◌, refl, true, Bool-cases, inl, inr, if◌then◌else◌, List, [], ◌∷◌, ◌++◌, arith,
}
use orbitnet.Wire.Bytes.{Bytes}
use orbitnet.Schema.{
  PropKind, QuantKind, PropRole, PropSchema, SchemaBuilder, new, stride, valid_for, push_quantized,
}

-- The properties fill the bytes from `start` to `end` in order, and each may have its quantizer.
abbrev pub Fills : ℕ → List PropSchema → ℕ → Type 0
Fills start [] end = start ≡ end
Fills start (p ∷ ps) end =
    (p.offset ≡ start) × (valid_for p.quant p.kind ≡ true) × Fills (start + stride p.kind) ps end

-- A request for a property.
pub record Push : Type 0 where
  pub name : Bytes
  pub kind : PropKind
  pub role : PropRole
  pub quant : QuantKind

-- The schema after a run of requests.
unfoldable pub built : SchemaBuilder → List Push → SchemaBuilder
built b [] = b
built b (p ∷ ps) = built (push_quantized b p.name p.kind p.role p.quant).0 ps

Fills-append :
    (start : ℕ) (ps : List PropSchema) (middle : ℕ) (p : PropSchema)
    → Fills start ps middle
    → p.offset ≡ middle
    → valid_for p.quant p.kind ≡ true
    → Fills start (ps ++ (p ∷ [])) (middle + stride p.kind)
Fills-append start [] middle p h e v = (omega (arith, e, h), v, omega (arith, h))
Fills-append start (q ∷ ps) middle p h e v =
    (h.0, h.1, Fills-append (start + stride q.kind) ps middle p h.2 e v)

kept_valid :
    (quant : QuantKind) (kind : PropKind)
    → valid_for (if valid_for quant kind then quant else QuantKind.none) kind ≡ true
unfolding valid_for
kept_valid quant kind = elim (Bool-cases (valid_for quant kind)) [
  | inl ok ↦ rw ok ok
  | inr bad ↦ rw bad (lossless kind)
]
  where
    lossless : (kind : PropKind) → valid_for QuantKind.none kind ≡ true
    lossless kind = refl

push_quantized-Fills :
    (b : SchemaBuilder) (p : Push)
    → Fills 0 b.props b.row_stride
    → Fills 0
        (push_quantized b p.name p.kind p.role p.quant).0.props
        (push_quantized b p.name p.kind p.role p.quant).0.row_stride
unfolding push_quantized
push_quantized-Fills b p h =
    Fills-append 0 b.props b.row_stride _ h refl (kept_valid p.quant p.kind)

built-Fills_from :
    (b : SchemaBuilder) (ps : List Push)
    → Fills 0 b.props b.row_stride
    → Fills 0 (built b ps).props (built b ps).row_stride
unfolding built
built-Fills_from b [] h = h
built-Fills_from b (p ∷ ps) h =
    built-Fills_from (push_quantized b p.name p.kind p.role p.quant).0 ps
      (push_quantized-Fills b p h)

-- Whatever properties are pushed in whatever order, each starts where the one before it ends, the
-- row's stride is where the last ends, and no property keeps a quantizer that its kind has none of.
pub built-Fills : (ps : List Push) → Fills 0 (built new ps).props (built new ps).row_stride
built-Fills ps = built-Fills_from new ps refl

pub Fills-le : (start : ℕ) (ps : List PropSchema) (end : ℕ) → Fills start ps end → start ≤ end
Fills-le start [] end h = omega (arith, h)
Fills-le start (p ∷ ps) end h = omega (arith, Fills-le (start + stride p.kind) ps end h.2)
