-- ===== src/Encoder/BuilderLaws.antt =====
-- The signatures of the functions that WasmModuleBuilder::Build (wasm/encoder.cc) builds.
use v8_native_prototype.Base.{
  ℕ, ◌+◌, ◌^◌, ◌<◌, ◌≤◌, ◌≡◌, refl, sym, ap, ◌∙◌, arith, List, [], ◌∷◌, ◌++◌, append-nil,
  append_assoc, some, length, length-append, get_elem?, All, bind-some,
}
use v8_native_prototype.Opcodes.Types.{FunctionSig, MachineType}
use v8_native_prototype.Encoder.Function.{WasmFunctionBuilder, WasmFunctionEncoder}
use v8_native_prototype.Encoder.Build.{build_body, build_sig}
use v8_native_prototype.Encoder.Builder.{WasmModuleBuilder, build_function, build_functions, build}
use v8_native_prototype.Encoder.Sizes.{WasmModuleWriter}
use v8_native_prototype.ModuleDecoder.WellFormed.{get_elem?-append}
use v8_native_prototype.Encoder.Signatures.{SignatureMap}
use v8_native_prototype.Encoder.SignatureLaws.{
  Injective, SignatureMapLaws, Indexed, add_signature-Indexed,
}

-- Encoders for the builders, in order, each with its body and with an index of its signature.
unfoldable pub Encodes :
    List FunctionSig → List WasmFunctionBuilder → List WasmFunctionEncoder → Type 0
Encodes signatures [] [] = Unit
Encodes signatures (b ∷ bs) (e ∷ es) =
    (get_elem? signatures e.signature_index ≡ some (build_sig b))
    × (build_body b ≡ some e.body)
    × Encodes signatures bs es
Encodes signatures [] (e ∷ es) = ⊥
Encodes signatures (b ∷ bs) [] = ⊥

-- A function whose body can be built.
unfoldable pub Builds : WasmFunctionBuilder → Type 0
Builds b = (body : List ℕ) × (build_body b ≡ some body)

module _ (m : SignatureMap) (rank : MachineType → ℕ) (laws : SignatureMapLaws m rank)
    (inj : Injective rank) where
  build_function_lem :
      (b : WasmFunctionBuilder) (signatures : List FunctionSig) (map : m.Map)
      → Builds b
      → length signatures < 2 ^ 16
      → Indexed m rank laws signatures map
      → (e : WasmFunctionEncoder) × (signatures' : List FunctionSig) × (map' : m.Map)
        × (build_function m b signatures map ≡ some (e, signatures', map'))
        × (get_elem? signatures' e.signature_index ≡ some (build_sig b))
        × (build_body b ≡ some e.body)
        × Indexed m rank laws signatures' map'
        × ((more : List FunctionSig) × (signatures' ≡ signatures ++ more) × (length more ≤ 1))
  unfolding build_function Builds
  build_function_lem b signatures map (body, built) small h =
      let (at, indexed, more) =
        add_signature-Indexed m rank laws inj (build_sig b) signatures map small h in
      (_, _, _, bind-some (build_body b) body _ built, at, built, indexed, more)

  build_functions_lem :
      (bs : List WasmFunctionBuilder) (signatures : List FunctionSig) (map : m.Map)
      → All Builds bs
      → length signatures + length bs ≤ 2 ^ 16
      → Indexed m rank laws signatures map
      → (es : List WasmFunctionEncoder) × (signatures' : List FunctionSig) × (map' : m.Map)
        × (build_functions m bs signatures map ≡ some (es, signatures', map'))
        × Encodes signatures' bs es
        × Indexed m rank laws signatures' map'
        × ((more : List FunctionSig) × (signatures' ≡ signatures ++ more))
  unfolding build_functions Encodes
  build_functions_lem [] signatures map builds small h =
      ([], signatures, map, refl, _, h, ([], sym (append-nil signatures)))
  build_functions_lem (b ∷ bs) signatures map builds small h =
      let (e, sigs₁, map₁, built, at, body, h₁, (more, e₁, one)) =
        build_function_lem b signatures map builds.0 (omega arith) h in
      let (es, sigs₂, map₂, rest, encodes, h₂, (more', e₂)) =
        build_functions_lem bs sigs₁ map₁ builds.1
          (omega (arith, ap (length {A = FunctionSig}) e₁, length-append signatures more)) h₁ in
      (
        e ∷ es,
        sigs₂,
        map₂,
        rw (built, rest) refl,
        (
          ap (λ sigs. get_elem? sigs e.signature_index) e₂
              ∙ get_elem?-append sigs₁ more' e.signature_index (build_sig b) at,
          body,
          encodes,
        ),
        h₂,
        (more ++ more', e₂ ∙ ap (λ sigs. sigs ++ more') e₁ ∙ append_assoc signatures more more'),
      )

  -- Where the map keeps its laws and the order of machine types tells any two apart, Build of a builder
  -- whose map has only entries that are indices of their signatures, whose functions' bodies can be
  -- built, and which has at most 65536 signatures and functions together, gives a writer: for each
  -- function, in order, it has an encoder with the function's body and an index of the function's
  -- signature in the writer's signatures, which are the builder's and some behind them; the other
  -- rows are the builder's; and the builder is left with these signatures and such a map.
  pub build-Encodes :
      (b : WasmModuleBuilder m)
      → Indexed m rank laws b.signatures b.signature_map
      → All Builds b.functions
      → length b.signatures + length b.functions ≤ 2 ^ 16
      → (w : WasmModuleWriter) × (b' : WasmModuleBuilder m) × (build m b ≡ some (w, b'))
        × Encodes w.signatures b.functions w.functions
        × ((more : List FunctionSig) × (w.signatures ≡ b.signatures ++ more))
        × (w.data_segments ≡ b.data_segments)
        × (w.indirect_functions ≡ b.indirect_functions)
        × (w.globals ≡ b.globals)
        × (b'.signatures ≡ w.signatures)
        × Indexed m rank laws b'.signatures b'.signature_map
  unfolding build
  build-Encodes b h builds small =
      let (es, sigs, map, e, encodes, indexed, more) =
        build_functions_lem b.functions b.signatures b.signature_map builds small h in
      (_, _, bind-some _ (es, sigs, map) _ e, encodes, more, refl, refl, refl, refl, indexed)
