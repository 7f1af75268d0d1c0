-- ===== src/Encoder/Build.antt =====
-- WasmFunctionBuilder::Build of wasm/encoder.cc, up to its call of AddSignature. An index of a variable that was not declared, or of one whose type
-- has no group, is undefined in the source; the body is `none` then.
use mathlib.Core.Option
use v8_native_prototype.Base.{
  drop-nil, ℕ, zero, suc, ◌+◌, ◌≤◌, ◌≡◌, refl, Bool, false, List, [], ◌∷◌, ◌++◌, Option, none, some,
  arith, length, get_elem?, get_or, drop, drop-next, get_or-drop, lt→ltb, ◌<◌, ltb, ◌==◌,
  if◌then◌else◌,
}
use v8_native_prototype.Opcodes.Types.{FunctionSig}
use v8_native_prototype.Leb.Read.{read_unsigned_leb128_operand}
use v8_native_prototype.Leb.Write.{unsigned_leb128_from}
use v8_native_prototype.ModuleDecoder.Items.{is_stmt}
use v8_native_prototype.Encoder.Function.{WasmFunctionBuilder, index_vars, param_types}

-- Whether position i is the next one that holds the index of a variable.
unfoldable pub starts_local : ℕ → List ℕ → Bool
starts_local i [] = false
starts_local i (l ∷ ls) = i == l

-- The new index of a variable in front of the rest of the body.
unfoldable pub put_index : Option (Option ℕ) → Option (List ℕ) → Option (List ℕ)
put_index (some (some v)) rest = Option.map (λ bs. unsigned_leb128_from v ++ bs) rest
put_index (some none) rest = none
put_index none rest = none

-- The loop of Build over the body; the first argument is fuel.
unfoldable pub build_loop : ℕ → List ℕ → List ℕ → List (Option ℕ) → ℕ → Option (List ℕ)
build_loop zero body locals vars i = some []
build_loop (suc n) body locals vars i =
    let r = read_unsigned_leb128_operand body i (length body) in
    let is_local = starts_local i locals in
    let rest =
      build_loop n body (if is_local then drop 1 locals else locals) vars
        (i + (if is_local then r.len else 1)) in
    if ltb i (length body)
    then if is_local
      then put_index (get_elem? vars r.value) rest
      else Option.map (λ bs. get_or body i 0 ∷ bs) rest
    else some []

-- The body of the encoder that Build returns. Each round takes a byte at least.
unfoldable pub build_body : WasmFunctionBuilder → Option (List ℕ)
build_body b = build_loop (length b.body) b.body b.local_indices (index_vars b.locals) 0

-- The signature that Build passes to AddSignature.
unfoldable pub build_sig : WasmFunctionBuilder → FunctionSig
build_sig b = record {
  returns = if is_stmt b.return_type then [] else b.return_type ∷ [];
  params = param_types b.locals;
}

drop-bound : (i : ℕ) (xs : List ℕ) (x : ℕ) (rest : List ℕ) → drop i xs ≡ x ∷ rest → i < length xs
drop-bound i [] x rest h = absurd (ground (arith, h, drop-nil {A = ℕ} i))
drop-bound zero (y ∷ ys) x rest h = omega arith
drop-bound (suc i) (y ∷ ys) x rest h = omega (arith, drop-bound i ys x rest h)

drop-end : (i : ℕ) (xs : List ℕ) → drop i xs ≡ [] → length xs ≤ i
drop-end i [] h = omega arith
drop-end zero (y ∷ ys) h = cc
drop-end (suc i) (y ∷ ys) h = omega (arith, drop-end i ys h)

-- Where no positions of variables are recorded, the loop of Build copies the body from i on to its
-- end, if the fuel is at least the number of bytes there.
pub build_loop-copies :
    (n : ℕ) (body : List ℕ) (vars : List (Option ℕ)) (i : ℕ) (rest : List ℕ)
    → drop i body ≡ rest
    → length rest ≤ n
    → build_loop n body [] vars i ≡ some rest
unfolding build_loop starts_local
build_loop-copies zero body vars i [] h k = refl
build_loop-copies zero body vars i (x ∷ rest) h k = absurd (omega arith)
build_loop-copies (suc n) body vars i [] h k = ground (arith, drop-end i body h)
build_loop-copies (suc n) body vars i (x ∷ rest) h k =
    rw
      (
        lt→ltb i (length body) (drop-bound i body x rest h),
        build_loop-copies n body vars (i + 1) rest (drop-next i body x rest h) (omega arith),
        get_or-drop i body 0 x rest h,
      )
      refl

-- Build keeps the body of a function for which no positions of variables are recorded, with the fuel
-- that it has.
pub build_body-copies :
    (b : WasmFunctionBuilder) → b.local_indices ≡ [] → build_body b ≡ some b.body
unfolding build_body
build_body-copies b h =
    rw h
      (build_loop-copies (length b.body) b.body (index_vars b.locals) 0 b.body refl (omega arith))
