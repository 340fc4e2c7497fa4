-- ===== src/Schema/Mix.antt =====
-- The hash of a schema covers every byte of it: one that differs gives another hash.
use orbitnet.Base.{
  ℕ, ◌*◌, ◌%◌, ◌^◌, ◌<◌, ◌≡◌, ◌≢◌, refl, sym, ◌∙◌, ap, bit_xor, List, [], ◌∷◌, ◌++◌, All, arith,
}
use orbitnet.Base.Bits.{bit_xor_cancel, bit_xor_comm, bit_xor_small}
use orbitnet.Wire.Bytes.{Bytes}
use orbitnet.Wire.Bytes.Hostile.{IsByte}
use orbitnet.Schema.{
  PropSchema, SchemaBuilder, kind_tag, role_tag, quant_tag, mix, mix_all, mix_prop, mix_props,
  hash_of,
}

-- The bytes that the hash runs over.
abbrev pub covered : List PropSchema → Bytes
covered [] = []
covered (p ∷ ps) =
    (p.name ++ (255 ∷ kind_tag p.kind ∷ role_tag p.role ∷ quant_tag p.quant ∷ [])) ++ covered ps

mix_all-append : (hash : ℕ) (bs cs : Bytes) → mix_all hash (bs ++ cs) ≡ mix_all (mix_all hash bs) cs
mix_all-append hash [] cs = refl
mix_all-append hash (b ∷ bs) cs = mix_all-append (mix hash b) bs cs

mix_props-covered :
    (hash : ℕ) (ps : List PropSchema) → mix_props hash ps ≡ mix_all hash (covered ps)
unfolding mix_prop mix_props
mix_props-covered hash [] = refl
mix_props-covered hash (p ∷ ps) =
    let tags = 255 ∷ kind_tag p.kind ∷ role_tag p.role ∷ quant_tag p.quant ∷ [] in
    mix_props-covered (mix_prop hash p) ps
    ∙ sym (ap (λ h. mix_all h (covered ps)) (mix_all-append hash p.name tags))
    ∙ sym (mix_all-append hash (p.name ++ tags) (covered ps))

-- The prime is odd, so that its product loses nothing: 0x359c449b undoes it.
prime_cancel :
    (x y : ℕ) → x < 2 ^ 32 → y < 2 ^ 32 → x * 0x01000193 % 2 ^ 32 ≡ y * 0x01000193 % 2 ^ 32 → x ≡ y
prime_cancel x y hx hy e = omega (arith, hx, hy, e)

mix_small : (hash byte : ℕ) → mix hash byte < 2 ^ 32
mix_small hash byte = omega arith

mix_same_byte :
    (g h byte : ℕ) → g < 2 ^ 32 → h < 2 ^ 32 → byte < 256 → mix g byte ≡ mix h byte → g ≡ h
mix_same_byte g h byte hg hh hb e =
    bit_xor_cancel g h byte (omega (arith, hg)) (omega (arith, hh)) (
      prime_cancel (bit_xor g byte) (bit_xor h byte)
        (bit_xor_small 32 g byte hg (omega (arith, hb)))
        (bit_xor_small 32 h byte hh (omega (arith, hb))) e)

mix_same_hash : (hash a b : ℕ) → hash < 2 ^ 32 → a < 256 → b < 256 → mix hash a ≡ mix hash b → a ≡ b
mix_same_hash hash a b hh ha hb e =
    let same =
      prime_cancel (bit_xor hash a) (bit_xor hash b)
        (bit_xor_small 32 hash a hh (omega (arith, ha)))
        (bit_xor_small 32 hash b hh (omega (arith, hb))) e in
    bit_xor_cancel a b hash (omega (arith, ha)) (omega (arith, hb)) (
      bit_xor_comm a hash (omega (arith, ha)) (omega (arith, hh))
      ∙ same
      ∙ bit_xor_comm hash b (omega (arith, hh)) (omega (arith, hb)))

mix_all-injective :
    (bs : Bytes) (g h : ℕ)
    → All IsByte bs
    → g < 2 ^ 32
    → h < 2 ^ 32
    → mix_all g bs ≡ mix_all h bs
    → g ≡ h
mix_all-injective [] g h all hg hh e = e
mix_all-injective (b ∷ bs) g h all hg hh e =
    mix_same_byte g h b hg hh all.0
      (mix_all-injective bs (mix g b) (mix h b) all.1 (mix_small g b) (mix_small h b) e)

mix_all_small : (bs : Bytes) (g : ℕ) → g < 2 ^ 32 → mix_all g bs < 2 ^ 32
mix_all_small [] g h = h
mix_all_small (b ∷ bs) g h = mix_all_small bs (mix g b) (mix_small g b)

-- Two schemas that differ in one byte, be it of a name, a kind, a role or a quantizer, have
-- different hashes: where the bytes that the hash covers are the same but for one place.
pub hash_of-one_byte :
    (b c : SchemaBuilder) (before after : Bytes) (x y : ℕ)
    → covered b.props ≡ before ++ (x ∷ after)
    → covered c.props ≡ before ++ (y ∷ after)
    → All IsByte after
    → x < 256
    → y < 256
    → x ≢ y
    → hash_of b ≢ hash_of c
unfolding hash_of
hash_of-one_byte b c before after x y eb ec all hx hy ne same =
    let start = mix_all 0x811c9dc5 before in
    let small : start < 2 ^ 32 = mix_all_small before 0x811c9dc5 (omega arith) in
    let runs = λ (d : SchemaBuilder) (z : ℕ) (e : covered d.props ≡ before ++ (z ∷ after)).
      mix_props-covered 0x811c9dc5 d.props
      ∙ ap (mix_all 0x811c9dc5) e
      ∙ mix_all-append 0x811c9dc5 before (z ∷ after) in
    let ends : mix_all (mix start x) after ≡ mix_all (mix start y) after =
      sym (runs b x eb) ∙ same ∙ runs c y ec in
    ne (
      mix_same_hash start x y small hx hy (
        mix_all-injective after (mix start x) (mix start y) all (mix_small start x)
          (mix_small start y) ends))
