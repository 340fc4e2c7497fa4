-- ===== src/Schema.antt =====
-- native/crates/orbitnet-core/src/protocol.rs: the schema of a row, its layout and its hash. A name
-- is its bytes.
pub mod Layout
pub mod Mix
mod Tests
use orbitnet.Base.{
  ℕ, ◌+◌, ◌*◌, ◌/◌, ◌%◌, ◌^◌, bit_xor, Bool, true, false, List, [], ◌∷◌, ◌++◌, if◌then◌else◌,
  length,
}
use orbitnet.Wire.Bytes.{Bytes}

abbrev pub protocol_version : ℕ
protocol_version = 9 * 2 ^ 16

unfoldable pub protocol_major : ℕ → ℕ
protocol_major version = version / 2 ^ 16

pub data PropKind : Type 0 where
  bool i32 i64 f32 f64 vec3 quat vec2 basis transform : PropKind

unfoldable pub stride : PropKind → ℕ
stride bool = 1
stride i32 = 4
stride f32 = 4
stride i64 = 8
stride f64 = 8
stride vec2 = 8
stride vec3 = 12
stride quat = 16
stride basis = 36
stride transform = 48

unfoldable pub kind_tag : PropKind → ℕ
kind_tag bool = 1
kind_tag i32 = 2
kind_tag i64 = 3
kind_tag f32 = 4
kind_tag f64 = 5
kind_tag vec3 = 6
kind_tag quat = 7
kind_tag vec2 = 8
kind_tag basis = 9
kind_tag transform = 10

pub data QuantKind : Type 0 where
  none ss3 half : QuantKind

unfoldable pub quant_tag : QuantKind → ℕ
quant_tag none = 0
quant_tag ss3 = 1
quant_tag half = 2

unfoldable pub valid_for : QuantKind → PropKind → Bool
valid_for none kind = true
valid_for ss3 quat = true
valid_for ss3 basis = true
valid_for ss3 _ = false
valid_for half vec3 = true
valid_for half vec2 = true
valid_for half f32 = true
valid_for half _ = false

pub data PropRole : Type 0 where
  state input cosmetic : PropRole

unfoldable pub role_tag : PropRole → ℕ
role_tag state = 1
role_tag input = 2
role_tag cosmetic = 3

unfoldable pub is_restored : PropRole → Bool
is_restored state = true
is_restored input = true
is_restored cosmetic = false

unfoldable pub triggers_resim : PropRole → Bool
triggers_resim state = true
triggers_resim input = false
triggers_resim cosmetic = false

pub record PropSchema : Type 0 where
  pub name : Bytes
  pub kind : PropKind
  pub role : PropRole
  pub offset : ℕ
  pub quant : QuantKind

pub record SchemaBuilder : Type 0 where
  pub props : List PropSchema
  pub row_stride : ℕ

abbrev pub new : SchemaBuilder
new = record { props = []; row_stride = 0 }

-- `push_quantized`: the schema after it, and the index of the property.
unfoldable pub push_quantized :
    SchemaBuilder → Bytes → PropKind → PropRole → QuantKind → SchemaBuilder × ℕ
push_quantized b name kind role quant =
    let kept = if valid_for quant kind then quant else none in
    let prop : PropSchema = record {
      name = name;
      kind = kind;
      role = role;
      offset = b.row_stride;
      quant = kept;
    } in
    (
      record { props = b.props ++ (prop ∷ []); row_stride = b.row_stride + stride kind },
      length b.props,
    )

unfoldable pub push : SchemaBuilder → Bytes → PropKind → PropRole → SchemaBuilder × ℕ
unfolding push_quantized
push b name kind role = push_quantized b name kind role none

-- The indices, from `i` on, of the properties whose role passes.
unfoldable pub indices : (PropRole → Bool) → ℕ → List PropSchema → List ℕ
indices test i [] = []
indices test i (p ∷ ps) =
    let later = indices test (i + 1) ps in if test p.role then i ∷ later else later

unfoldable pub resim_triggering : SchemaBuilder → List ℕ
unfolding indices
resim_triggering b = indices triggers_resim 0 b.props

unfoldable pub restored : SchemaBuilder → List ℕ
unfolding indices
restored b = indices is_restored 0 b.props

-- One round of FNV-1a.
abbrev pub mix : ℕ → ℕ → ℕ
mix hash byte = bit_xor hash byte * 0x01000193 % 2 ^ 32

abbrev pub mix_all : ℕ → Bytes → ℕ
mix_all hash [] = hash
mix_all hash (b ∷ bs) = mix_all (mix hash b) bs

-- The rounds of one property: its name, the separator and the three tags.
unfoldable pub mix_prop : ℕ → PropSchema → ℕ
mix_prop hash p =
    mix (mix (mix (mix (mix_all hash p.name) 255) (kind_tag p.kind)) (role_tag p.role))
      (quant_tag p.quant)

unfoldable pub mix_props : ℕ → List PropSchema → ℕ
mix_props hash [] = hash
mix_props hash (p ∷ ps) = mix_props (mix_prop hash p) ps

unfoldable pub hash_of : SchemaBuilder → ℕ
unfolding mix_prop mix_props
hash_of b = mix_props 0x811c9dc5 b.props
