-- ===== src/RoundTrip/Sections.antt =====
-- Each section that WriteTo (wasm/encoder.cc) writes, as DecodeModule (wasm/module-decoder.cc) reads it.
use v8_native_prototype.Base.{
  ℕ, ◌+◌, ◌^◌, ◌<◌, ◌≤◌, ◌≡◌, refl, sym, ap, ◌∙◌, arith, Bool, true, false, ◌&&◌, List, [], ◌∷◌,
  ◌++◌, map, length, get_or, set, All, ltb, if◌then◌else◌,
}
use v8_native_prototype.Leb.Write.{var_int}
use v8_native_prototype.Opcodes.Types.{FunctionSig, MachineType}
use v8_native_prototype.Decoder.State.{Decoder}
use v8_native_prototype.WasmModule.Types.{WasmFunction, WasmModule}
use v8_native_prototype.ModuleDecoder.WellFormed.{SigIsValid}
use v8_native_prototype.ModuleDecoder.Items.{
  sig, decode_global_in_module, decode_function_in_module,
}
use v8_native_prototype.ModuleDecoder.Sections.{
  Verifier, to_section, ModuleState, check_for_previous_section, signatures_section,
  globals_section, data_segments_section, function_table_section,
}
use v8_native_prototype.ModuleDecoder.Module.{run_section, functions_section}
use v8_native_prototype.Encoder.Emit.{u16_bytes}
use v8_native_prototype.Encoder.Function.{WasmFunctionEncoder}
use v8_native_prototype.Encoder.Serialize.{WasmDataSegmentEncoder}
use v8_native_prototype.Encoder.Layout.{
  each_bytes, section_bytes, global_bytes, signature_bytes, function_bytes, segments_bytes,
}
use v8_native_prototype.RoundTrip.Parse.{At, move, Parses-cast, each_value, decode_counted-Parses}
use v8_native_prototype.RoundTrip.Items.{sig-Parses}
use v8_native_prototype.RoundTrip.EntryItems.{
  is_mem_type, decoded_global, decode_global_in_module-Parses,
}
use v8_native_prototype.RoundTrip.Functions.{decode_function_in_module-Parses}
use v8_native_prototype.RoundTrip.FunctionParts.{FunctionFits, decoded_function}
use v8_native_prototype.RoundTrip.Entries.{
  each_value-map, map_same, SegmentFits, contents_length, decoded_segments, decode_segments-Parses,
  read_table-Parses,
}
use v8_native_prototype.RoundTrip.Rounds.{Reaches, section-Reaches}

module _ (verify : Verifier) (asm_js : Bool) (size : ℕ) where
  none_there {ℓ κ} :
      {A : Type ℓ} {B : Type κ} (m : WasmModule) (field : List B) (put : List B → WasmModule)
      (xs : List A) (val : List A → List B)
      → field ≡ []
      → put field ≡ m
      → val [] ≡ []
      → length xs ≡ 0
      → m ≡ put (val xs)
  none_there m field put [] val e f g n = sym f ∙ ap put (e ∙ sym g)
  none_there m field put (x ∷ xs) val e f g n = absurd (omega arith)

  All-both {ℓ κ} :
      {A : Type ℓ} (P Q R : A → Type κ) (xs : List A)
      → ((x : A) → P x → Q x → R x)
      → All P xs
      → All Q xs
      → All R xs
  All-both P Q R [] f h k = _
  All-both P Q R (x ∷ xs) f h k = (f x h.0 k.0, All-both P Q R xs f h.1 k.1)

  All-made {ℓ κ ι} :
      {A : Type ℓ} (P : A → Type κ) (R : A → Type ι) (xs : List A)
      → ((x : A) → P x → R x)
      → All P xs
      → All R xs
  All-made P R [] f h = _
  All-made P R (x ∷ xs) f h = (f x h.0, All-made P R xs f h.1)

  pub globals-Reaches :
      (gs : List (MachineType × Bool)) (rest : List ℕ) (s : ModuleState)
      → get_or s.sections 3 false ≡ false
      → s.wasm_module.globals ≡ []
      → All (λ (g : MachineType × Bool). is_mem_type g.0 ≡ true) gs
      → length gs < 2 ^ 32
      → At size s.d (section_bytes 3 (length gs) (each_bytes global_bytes gs)) rest
      → Reaches verify asm_js s (record s {
        d = move (length (section_bytes 3 (length gs) (each_bytes global_bytes gs))) s.d;
        wasm_module = record s.wasm_module { globals = map decoded_global gs };
        sections = set s.sections 3 (ltb 0 (length gs));
      })
  unfolding to_section run_section globals_section
  globals-Reaches gs rest s fresh empty types few v =
      let m = s.wasm_module in
      section-Reaches verify asm_js size 3 (length gs) (each_bytes global_bytes gs) rest s
        (λ p. record m { globals = map decoded_global gs }) (omega arith) fresh
        (λ n.
          none_there m m.globals (λ found. record m { globals = found }) gs
            (λ found. map decoded_global found) empty refl refl n)
        (λ more w.
          ap
            (λ r. record s {
              d = r.1;
              wasm_module = record m { globals = m.globals ++ r.0 };
              sections = set s.sections 3 true;
            })
            ((Parses-cast size _ refl (λ p. each_value-map global_bytes decoded_global gs _)
                (decode_counted-Parses size decode_global_in_module global_bytes
                  (λ g _. decoded_global g) gs few
                  (All-made _ _ gs (decode_global_in_module-Parses size) types))).run
              (move 1 s.d) rest w)
          ∙ ap
              (λ found. record s {
                d = move (length (var_int (length gs) ++ each_bytes global_bytes gs)) (move 1 s.d);
                wasm_module = record m { globals = found ++ map decoded_global gs };
                sections = set s.sections 3 true;
              })
              empty)
        v

  pub signatures-Reaches :
      (sigs : List FunctionSig) (rest : List ℕ) (s : ModuleState)
      → get_or s.sections 1 false ≡ false
      → s.wasm_module.signatures ≡ []
      → All SigIsValid sigs
      → All (λ (sg : FunctionSig). length sg.params < 2 ^ 8) sigs
      → length sigs < 2 ^ 32
      → At size s.d (section_bytes 1 (length sigs) (each_bytes signature_bytes sigs)) rest
      → Reaches verify asm_js s (record s {
        d = move (length (section_bytes 1 (length sigs) (each_bytes signature_bytes sigs))) s.d;
        wasm_module = record s.wasm_module { signatures = sigs };
        sections = set s.sections 1 (ltb 0 (length sigs));
      })
  unfolding to_section run_section signatures_section
  signatures-Reaches sigs rest s fresh empty valid small few v =
      let m = s.wasm_module in
      section-Reaches verify asm_js size 1 (length sigs) (each_bytes signature_bytes sigs) rest s
        (λ p. record m { signatures = sigs }) (omega arith) fresh
        (λ n.
          none_there m m.signatures (λ found. record m { signatures = found }) sigs (λ found. found)
            empty refl refl n)
        (λ more w.
          ap
            (λ r. record s {
              d = r.1;
              wasm_module = record m { signatures = m.signatures ++ r.0 };
              sections = set s.sections 1 true;
            })
            ((Parses-cast size _ refl
                (λ p. each_value-map signature_bytes (λ sg. sg) sigs _ ∙ map_same sigs)
                (decode_counted-Parses size sig signature_bytes (λ sg _. sg) sigs few
                  (All-both _ _ _ sigs (sig-Parses size) valid small))).run
              (move 1 s.d) rest w)
          ∙ ap
              (λ found. record s {
                d =
                    move (length (var_int (length sigs) ++ each_bytes signature_bytes sigs))
                      (move 1 s.d);
                wasm_module = record m { signatures = found ++ sigs };
                sections = set s.sections 1 true;
              })
              empty)
        v

  pub segments-Reaches :
      (at : ℕ) (ss : List WasmDataSegmentEncoder) (rest : List ℕ) (s : ModuleState)
      → get_or s.sections 4 false ≡ false
      → s.wasm_module.data_segments ≡ []
      → size < 2 ^ 32
      → at + contents_length ss ≤ size
      → All SegmentFits ss
      → length ss < 2 ^ 32
      → At size s.d (section_bytes 4 (length ss) (segments_bytes at ss)) rest
      → Reaches verify asm_js s (record s {
        d = move (length (section_bytes 4 (length ss) (segments_bytes at ss))) s.d;
        wasm_module = record s.wasm_module { data_segments = decoded_segments at ss };
        sections = set s.sections 4 (ltb 0 (length ss));
      })
  unfolding to_section run_section data_segments_section
  segments-Reaches at ss rest s fresh empty small inside fits few v =
      let m = s.wasm_module in
      section-Reaches verify asm_js size 4 (length ss) (segments_bytes at ss) rest s
        (λ p. record m { data_segments = decoded_segments at ss }) (omega arith) fresh
        (λ n.
          none_there m m.data_segments (λ found. record m { data_segments = found }) ss
            (λ found. decoded_segments at found) empty refl refl n)
        (λ more w.
          ap
            (λ r. record s {
              d = r.1;
              wasm_module = record m { data_segments = m.data_segments ++ r.0 };
              sections = set s.sections 4 true;
            })
            ((decode_segments-Parses size at ss small inside fits few).run (move 1 s.d) rest w)
          ∙ ap
              (λ found. record s {
                d = move (length (var_int (length ss) ++ segments_bytes at ss)) (move 1 s.d);
                wasm_module = record m { data_segments = found ++ decoded_segments at ss };
                sections = set s.sections 4 true;
              })
              empty)
        v

  if_and_false {ℓ} : {A : Type ℓ} (b : Bool) (x y : A) → (if b && false then x else y) ≡ y
  if_and_false true x y = refl
  if_and_false false x y = refl

  -- The functions stand behind the count, and each body where it was written.
  pub functions-Reaches :
      (fs : List WasmFunctionEncoder) (rest : List ℕ) (s : ModuleState)
      → get_or s.sections 2 false ≡ false
      → s.wasm_module.functions ≡ []
      → (0 < length fs → get_or (set s.sections 2 true) 1 false ≡ true)
      → All (FunctionFits s.wasm_module.signatures) fs
      → length fs < 2 ^ 32
      → At size s.d (section_bytes 2 (length fs) (each_bytes function_bytes fs)) rest
      → let found =
          each_value function_bytes
            (decoded_function s.wasm_module.signatures)
            fs
            (s.d.pc + 1 + length (var_int (length fs))) in
        Reaches verify asm_js s (record s {
          d = move (length (section_bytes 2 (length fs) (each_bytes function_bytes fs))) s.d;
          wasm_module = record s.wasm_module { functions = found };
          sections = set s.sections 2 (ltb 0 (length fs));
        })
  unfolding to_section run_section functions_section check_for_previous_section each_value
  functions-Reaches fs rest s fresh empty seen fits few v =
      let m = s.wasm_module in
      let value = λ (found : List WasmFunctionEncoder) (p : ℕ).
        each_value function_bytes (decoded_function m.signatures) found
          (p + 1 + length (var_int (length fs))) in
      section-Reaches verify asm_js size 2 (length fs) (each_bytes function_bytes fs) rest s
        (λ p. record m { functions = value fs p }) (omega arith) fresh
        (λ n.
          none_there m m.functions (λ found. record m { functions = found }) fs
            (λ found. value found s.d.pc) empty refl refl n)
        (λ more w.
          rw (seen more) (if_and_false _ _ _)
          ∙ ap
              (λ (r : List WasmFunction × Decoder). record s {
                d = r.1;
                wasm_module = record m { functions = m.functions ++ r.0 };
                sections = set s.sections 2 true;
              })
              ((decode_counted-Parses size (decode_function_in_module m) function_bytes
                  (decoded_function m.signatures) fs few
                  (All-made _ _ fs (decode_function_in_module-Parses size m) fits)).run
                (move 1 s.d) rest w)
          ∙ ap
              (λ found. record s {
                d =
                    move (length (var_int (length fs) ++ each_bytes function_bytes fs))
                      (move 1 s.d);
                wasm_module = record m { functions = found ++ value fs s.d.pc };
                sections = set s.sections 2 true;
              })
              empty)
        v

  -- The indices of functions.
  pub table-Reaches :
      (xs : List ℕ) (rest : List ℕ) (s : ModuleState)
      → get_or s.sections 5 false ≡ false
      → s.wasm_module.function_table ≡ []
      → (0 < length xs → get_or (set s.sections 5 true) 2 false ≡ true)
      → length s.wasm_module.functions ≤ 2 ^ 16
      → All (λ i. i < length s.wasm_module.functions) xs
      → length xs < 2 ^ 32
      → At size s.d (section_bytes 5 (length xs) (each_bytes u16_bytes xs)) rest
      → Reaches verify asm_js s (record s {
        d = move (length (section_bytes 5 (length xs) (each_bytes u16_bytes xs))) s.d;
        wasm_module = record s.wasm_module { function_table = xs };
        sections = set s.sections 5 (ltb 0 (length xs));
      })
  unfolding to_section run_section function_table_section check_for_previous_section
  table-Reaches xs rest s fresh empty seen small below few v =
      let m = s.wasm_module in
      section-Reaches verify asm_js size 5 (length xs) (each_bytes u16_bytes xs) rest s
        (λ p. record m { function_table = xs }) (omega arith) fresh
        (λ n.
          none_there m m.function_table (λ found. record m { function_table = found }) xs
            (λ found. found) empty refl refl n)
        (λ more w.
          rw (seen more) refl
          ∙ ap
              (λ (r : List ℕ × Decoder). record s {
                d = r.1;
                wasm_module = record m { function_table = m.function_table ++ r.0 };
                sections = set s.sections 5 true;
              })
              ((read_table-Parses size (length m.functions) xs small below few).run (move 1 s.d)
                rest w)
          ∙ ap
              (λ found. record s {
                d = move (length (var_int (length xs) ++ each_bytes u16_bytes xs)) (move 1 s.d);
                wasm_module = record m { function_table = found ++ xs };
                sections = set s.sections 5 true;
              })
              empty)
        v
