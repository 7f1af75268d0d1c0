-- ===== src/ModuleDecoder/Invariant.antt =====
-- The invariant of the loop over the sections in DecodeModule of wasm/module-decoder.cc, and that each
-- section keeps it.
use v8_native_prototype.Base.{ℕ, ◌≤◌, ◌≡◌, true, List, arith, All-append}
use v8_native_prototype.Decoder.State.{ok}
use v8_native_prototype.Decoder.Steps.{IsReading, Steps, Steps-IsReading, ok_before, u32v-Steps}
use v8_native_prototype.Opcodes.Types.{FunctionSig}
use v8_native_prototype.WasmModule.Types.{WasmFunction}
use v8_native_prototype.ModuleDecoder.Steps.{
  sig-Steps, decode_global_in_module-Steps, decode_data_segment_in_module-Steps,
}
use v8_native_prototype.ModuleDecoder.Items.{
  sig, decode_global_in_module, decode_data_segment_in_module,
}
use v8_native_prototype.ModuleDecoder.WellFormed.{
  SigIsValid, FunctionIsValid, GlobalIsValid, SegmentIsValid, ModuleIsValid, FunctionIsValid-append,
  All-map,
}
use v8_native_prototype.ModuleDecoder.Entries.{
  span, sig_valid, decode_global_in_module_valid, decode_data_segment_in_module_valid,
}
use v8_native_prototype.ModuleDecoder.Sections.{
  ModuleState, decode_counted, memory_section, signatures_section, globals_section,
  data_segments_section, function_table_section,
}
use v8_native_prototype.ModuleDecoder.Advance.{
  memory_section-Steps, signatures_section-Steps, globals_section-Steps,
  data_segments_section-Steps, function_table_section-Steps,
}
use v8_native_prototype.ModuleDecoder.EntrySteps.{check_for_previous_section-Steps}
use v8_native_prototype.ModuleDecoder.EntryLists.{
  Steps-span, decode_counted_valid, decode_table_valid,
}

-- What the loop keeps: the decoder is within the module, and as long as it has met no error the module
-- read so far is valid.
pub record Inv (size : ℕ) (s : ModuleState) : Type 0 where
  pub reading : IsReading s.d
  pub small : span s.d ≤ size
  pub valid : ok s.d ≡ true → ModuleIsValid size s.wasm_module

module _ (size : ℕ) where
  pub FunctionIsValid-mono :
      (sigs : List FunctionSig) (n : ℕ) (f : WasmFunction)
      → n ≤ size
      → FunctionIsValid sigs n f
      → FunctionIsValid sigs size f
  FunctionIsValid-mono sigs n f h v = record {
    signature = v.signature;
    has_sig = v.has_sig;
    sig_in_table = v.sig_in_table;
    code_in_order = v.code_in_order;
    code_in_module = omega (arith, h, v.code_in_module);
    name_in_module = omega (arith, h, v.name_in_module);
  }

  -- A section that steps from a decoder and has valid contents keeps the invariant.
  pub keep :
      (s t : ModuleState)
      → Inv size s
      → Steps s.d t.d
      → (ok t.d ≡ true → ModuleIsValid size s.wasm_module → ModuleIsValid size t.wasm_module)
      → Inv size t
  keep s t v st f = record {
    reading = Steps-IsReading st v.reading;
    small = omega (arith, Steps-span st, v.small);
    valid = λ h. f h (v.valid (ok_before st h));
  }

  pub memory_section-Inv : (s : ModuleState) → Inv size s → Inv size (memory_section s)
  unfolding memory_section
  memory_section-Inv s v = keep s _ v (memory_section-Steps s v.reading) λ h m. record {
    signatures = m.signatures;
    functions = m.functions;
    globals = m.globals;
    segments = m.segments;
    table = m.table;
  }

  pub signatures_section-Inv : (s : ModuleState) → Inv size s → Inv size (signatures_section s)
  unfolding signatures_section
  signatures_section-Inv s v = keep s _ v (signatures_section-Steps s v.reading) λ h m.
      let sigs = (decode_counted sig s.d).0 in
      record {
        signatures = All-append SigIsValid _ sigs m.signatures (
            decode_counted_valid sig sig-Steps size SigIsValid (λ d w k. sig_valid d w) s.d
              v.reading v.small h);
        functions =
            All-map _ _ _ (FunctionIsValid-append s.wasm_module.signatures sigs size) m.functions;
        globals = m.globals;
        segments = m.segments;
        table = m.table;
      }

  pub globals_section-Inv : (s : ModuleState) → Inv size s → Inv size (globals_section s)
  unfolding globals_section
  globals_section-Inv s v = keep s _ v (globals_section-Steps s v.reading) λ h m. record {
    signatures = m.signatures;
    functions = m.functions;
    globals = All-append (GlobalIsValid size) _ _ m.globals (
        decode_counted_valid decode_global_in_module decode_global_in_module-Steps size
          (GlobalIsValid size) (λ d w k h. omega (arith, k, decode_global_in_module_valid d w h))
          s.d v.reading v.small h);
    segments = m.segments;
    table = m.table;
  }

  pub data_segments_section-Inv :
      (s : ModuleState) → Inv size s → Inv size (data_segments_section s)
  unfolding data_segments_section
  data_segments_section-Inv s v = keep s _ v (data_segments_section-Steps s v.reading) λ h m.
      record {
        signatures = m.signatures;
        functions = m.functions;
        globals = m.globals;
        segments = All-append (SegmentIsValid size) _ _ m.segments (
            decode_counted_valid decode_data_segment_in_module decode_data_segment_in_module-Steps
              size (SegmentIsValid size)
              (λ d w k h. omega (arith, k, decode_data_segment_in_module_valid d w h)) s.d v.reading
              v.small h);
        table = m.table;
      }

  pub function_table_section-Inv :
      (s : ModuleState) → Inv size s → Inv size (function_table_section s)
  unfolding function_table_section
  function_table_section-Inv s v = keep s _ v (function_table_section-Steps s v.reading) λ h m.
      let st = check_for_previous_section-Steps s.sections 2 true s.d v.reading in
      let w = Steps-IsReading st v.reading in
      record {
        signatures = m.signatures;
        functions = m.functions;
        globals = m.globals;
        segments = m.segments;
        table =
            All-append _ s.wasm_module.function_table _ m.table
              (decode_table_valid _ _ _ (Steps-IsReading (u32v-Steps _ w) w) h);
      }
