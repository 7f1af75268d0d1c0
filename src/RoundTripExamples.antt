-- ===== src/RoundTripExamples.antt =====
-- Reading back what was written, at a concrete module.
use v8_native_prototype.Base.{◌<◌, ◌≡◌, refl, arith, false, [], some, length}
use v8_native_prototype.Decoder.State.{new_result, success}
use v8_native_prototype.ModuleDecoder.WellFormed.{SigIsValid}
use v8_native_prototype.ModuleDecoder.Entry.{max_module_size, decode_wasm_module}
use v8_native_prototype.Encoder.Serialize.{
  has_locals, function_header_size, function_body_size, segment_body_size,
}
use v8_native_prototype.Encoder.Sizes.{
  total, sizes_of, sizes_of_sections, add, add_section, add_section_loop, add_signatures,
  add_functions, add_segments,
}
use v8_native_prototype.Encoder.Layout.{module_bytes}
use v8_native_prototype.Encoder.Writer.{write_to}
use v8_native_prototype.Encoder.WriteTo.{write_to-module_bytes}
use v8_native_prototype.RoundTrip.Writers.{Readable, decoded_module}
use v8_native_prototype.RoundTrip.Modules.{write_to-decode_wasm_module}
use v8_native_prototype.EncoderExamples.{tiny_writer, tiny_writer-Fits}

void_valid : SigIsValid (record { returns = []; params = [] })
void_valid = record { one_return = omega arith; returns_valid = _; params_valid = _ }

tiny_end : (write_to tiny_writer).end ≡ 45
unfolding write_to total sizes_of sizes_of_sections add add_section add_section_loop add_signatures
    add_functions add_segments function_header_size function_body_size segment_body_size has_locals
tiny_end = refl

tiny_small : length (module_bytes tiny_writer) < max_module_size
tiny_small = omega (arith, tiny_end, (write_to-module_bytes tiny_writer tiny_writer-Fits).1)

tiny_writer-Readable : Readable tiny_writer
tiny_writer-Readable = record {
  types = (refl, _);
  signatures = (void_valid, _);
  params = (omega arith, _);
  functions = (
    record {
      signature = record { returns = []; params = [] };
      sig_in_table = refl;
      index_small = omega arith;
      int32_small = omega arith;
      int64_small = omega arith;
      float32_small = omega arith;
      float64_small = omega arith;
      body_small = omega arith;
      external_has_no_locals = λ e. cc;
    },
    _,
  );
  bodies = ((omega arith, _), _);
  segments = (record { dest_small = omega arith }, _);
  contents = ((omega arith, _), _);
  table = (omega arith, _);
  few_globals = omega arith;
  few_signatures = omega arith;
  few_functions = omega arith;
  few_segments = omega arith;
  few_indices = omega arith;
  small = tiny_small;
}

write_to-decode_wasm_module_example :
    decode_wasm_module
      (λ env mem start code end. new_result)
      false
      false
      (write_to tiny_writer).buffer
      (write_to tiny_writer).begin
      (write_to tiny_writer).end
    ≡ record new_result { error_code = success; val = some (decoded_module tiny_writer) }
write_to-decode_wasm_module_example =
    write_to-decode_wasm_module (λ env mem start code end. new_result) false tiny_writer
      tiny_writer-Readable tiny_writer-Fits
