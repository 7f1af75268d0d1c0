-- ===== src/RoundTrip/EntryItems.antt =====
-- The entries for globals and data segments: what wasm/module-decoder.cc reads from the bytes
-- that wasm/encoder.cc writes for them.
use v8_native_prototype.Base.{
  ℕ, ◌%◌, ◌^◌, ◌<◌, ◌≤◌, ◌≡◌, refl, subst, arith, Bool, true, false, not, some, length, ◌==◌,
}
use v8_native_prototype.Opcodes.Types.{
  LocalType, MachineType, mach_none, mach_int8, mach_uint8, mach_int16, mach_uint16, mach_int32,
  mach_uint32, mach_int64, mach_uint64, mach_float32, mach_float64, type_any, mach_any_tagged,
  local_code, mem_code, local_type_code_for, mem_type_code_for,
}
use v8_native_prototype.Decoder.Reads.{u8, u32}
use v8_native_prototype.WasmModule.Types.{WasmGlobal, WasmDataSegment}
use v8_native_prototype.ModuleDecoder.WellFormed.{IsValueType}
use v8_native_prototype.ModuleDecoder.Items.{
  offset, string, local_type_of, local_type, mem_type_of, mem_type, decode_global_in_module,
  decode_data_segment_in_module,
}
use v8_native_prototype.Encoder.Emit.{u8_bytes, u32_bytes}
use v8_native_prototype.Encoder.Serialize.{WasmDataSegmentEncoder}
use v8_native_prototype.Encoder.Writer.{bool_byte}
use v8_native_prototype.Encoder.Layout.{global_bytes, segment_bytes}
use v8_native_prototype.RoundTrip.Parse.{Parses, Parses-then, u8-Parses, u32-Parses}

-- The types that a global can have in memory.
abbrev pub is_mem_type : MachineType → Bool
is_mem_type mach_none = false
is_mem_type type_any = false
is_mem_type mach_any_tagged = false
is_mem_type _ = true

pub local_type_of_code :
    (t : LocalType)
    → IsValueType t
    → local_type_of (local_code (local_type_code_for t) % 256) ≡ some t
unfolding local_type_of local_code local_type_code_for
local_type_of_code mach_none h = cc
local_type_of_code mach_int8 h = cc
local_type_of_code mach_uint8 h = cc
local_type_of_code mach_int16 h = cc
local_type_of_code mach_uint16 h = cc
local_type_of_code mach_int32 h = refl
local_type_of_code mach_uint32 h = cc
local_type_of_code mach_int64 h = refl
local_type_of_code mach_uint64 h = cc
local_type_of_code mach_float32 h = refl
local_type_of_code mach_float64 h = refl
local_type_of_code type_any h = cc
local_type_of_code mach_any_tagged h = cc

mem_type_of_code :
    (t : MachineType)
    → is_mem_type t ≡ true
    → mem_type_of (mem_code (mem_type_code_for t) % 256) ≡ some t
unfolding mem_type_of mem_code mem_type_code_for
mem_type_of_code mach_none h = cc
mem_type_of_code mach_int8 h = refl
mem_type_of_code mach_uint8 h = refl
mem_type_of_code mach_int16 h = refl
mem_type_of_code mach_uint16 h = refl
mem_type_of_code mach_int32 h = refl
mem_type_of_code mach_uint32 h = refl
mem_type_of_code mach_int64 h = refl
mem_type_of_code mach_uint64 h = refl
mem_type_of_code mach_float32 h = refl
mem_type_of_code mach_float64 h = refl
mem_type_of_code type_any h = cc
mem_type_of_code mach_any_tagged h = cc

pub local_type-Parses :
    (size x : ℕ) (t : LocalType)
    → local_type_of (x % 256) ≡ some t
    → Parses size local_type (u8_bytes x) (λ _. t)
unfolding local_type
local_type-Parses size x t h = record {
  run = λ d rest v. ground (arith, (u8-Parses size x).run d rest v, h);
}

mem_type-Parses :
    (size x : ℕ) (t : MachineType)
    → mem_type_of (x % 256) ≡ some t
    → Parses size mem_type (u8_bytes x) (λ _. t)
unfolding mem_type
mem_type-Parses size x t h = record {
  run = λ d rest v. ground (arith, (u8-Parses size x).run d rest v, h);
}

offset-Parses :
    (size x : ℕ) → x % 2 ^ 32 ≤ size → Parses size offset (u32_bytes x) (λ _. x % 2 ^ 32)
unfolding offset
offset-Parses size x h = record {
  run = λ d rest v. rw ((u32-Parses size x).run d rest v) (ground (arith, v.start, v.limit));
}

string-Parses :
    (size x : ℕ) → x % 2 ^ 32 ≤ size → Parses size string (u32_bytes x) (λ _. x % 2 ^ 32)
unfolding string
string-Parses size x h = offset-Parses size x h

bool_byte_read : (b : Bool) → not (bool_byte b % 256 == 0) ≡ b
unfolding bool_byte
bool_byte_read true = refl
bool_byte_read false = refl

abbrev pub decoded_global : MachineType × Bool → WasmGlobal
decoded_global (type, exported) = record {
  name_offset = 0;
  type = type;
  offset = 0;
  exported = exported;
}

pub decode_global_in_module-Parses :
    (size : ℕ) (g : MachineType × Bool)
    → is_mem_type g.0 ≡ true
    → Parses size decode_global_in_module (global_bytes g) (λ _. decoded_global g)
unfolding decode_global_in_module global_bytes
decode_global_in_module-Parses size (type, exported) h =
    subst
      (λ b.
        Parses size decode_global_in_module (global_bytes (type, exported))
          (λ _. decoded_global (type, b)))
      (bool_byte_read exported)
      (Parses-then size _ (λ _. u8)
        (λ (name : ℕ × MachineType) (b : ℕ). record {
          name_offset = name.0;
          type = name.1;
          offset = 0;
          exported = not (b == 0);
        })
        _ _ _ (λ _ _. bool_byte exported % 256)
        (Parses-then size string (λ _. mem_type) (λ name t. (name, t)) _ _ (λ _. 0) (λ _ _. type)
          (string-Parses size 0 (omega arith))
          (λ _. mem_type-Parses size _ type (mem_type_of_code type h)))
        (λ _. u8-Parses size (bool_byte exported)))

abbrev pub decoded_segment : WasmDataSegmentEncoder → ℕ → WasmDataSegment
decoded_segment s at = record {
  dest_addr = s.dest;
  source_offset = at;
  source_size = length s.contents;
  init = true;
}

triple : {x x' y y' z z' : ℕ} → x ≡ x' → y ≡ y' → z ≡ z' → Path (ℕ × ℕ × ℕ) (x, y, z) (x', y', z')
triple e f g = cc

pub decode_data_segment_in_module-Parses :
    (size at : ℕ) (s : WasmDataSegmentEncoder)
    → s.dest < 2 ^ 32
    → length s.contents < 2 ^ 32
    → size < 2 ^ 32
    → at ≤ size
    → Parses size decode_data_segment_in_module (segment_bytes at s) (λ _. decoded_segment s at)
unfolding decode_data_segment_in_module segment_bytes
decode_data_segment_in_module-Parses size at s dest_small small size_small inside =
    subst
      (λ (f : ℕ × ℕ × ℕ).
        Parses size decode_data_segment_in_module (segment_bytes at s)
          (λ _. record { dest_addr = f.0; source_offset = f.1; source_size = f.2; init = true }))
      (triple (below s.dest dest_small) (twice at (omega arith)) (twice (length s.contents) small))
      (Parses-then size _ (λ _. u8)
        (λ (f : (ℕ × ℕ) × ℕ) (b : ℕ). record {
          dest_addr = f.0.0;
          source_offset = f.0.1;
          source_size = f.1;
          init = not (b == 0);
        })
        _ _ _ (λ _ _. 1)
        (Parses-then size _ (λ _. u32) (λ (f : ℕ × ℕ) (n : ℕ). (f, n)) _ _ _
          (λ _ _. length s.contents % 2 ^ 32 % 2 ^ 32)
          (Parses-then size u32 (λ _. offset) (λ (x y : ℕ). (x, y)) _ _ (λ _. s.dest % 2 ^ 32)
            (λ _ _. at % 2 ^ 32 % 2 ^ 32) (u32-Parses size s.dest)
            (λ _. offset-Parses size (at % 2 ^ 32) (omega arith)))
          (λ _. u32-Parses size (length s.contents % 2 ^ 32)))
        (λ _. u8-Parses size 1))
  where
    below : (x : ℕ) → x < 2 ^ 32 → x % 2 ^ 32 ≡ x
    below x h = omega arith

    twice : (x : ℕ) → x < 2 ^ 32 → x % 2 ^ 32 % 2 ^ 32 ≡ x
    twice x h = omega arith
