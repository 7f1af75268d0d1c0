-- ===== src/Opcodes/TableLaws.antt =====
-- What the opcode tables of wasm/wasm-opcodes.h and wasm/wasm-opcodes.cc amount to.
use mathlib.Core.Option
use mathlib.Core.Option.{some-injective}
use v8_native_prototype.Base.{
  ℕ, ◌<◌, ◌≡◌, refl, ap, sym, ◌∙◌, Bool, true, false, ◌||◌, not, Option, none, some, List, [], ◌∷◌,
  ◌++◌, ◌==◌, Option-cases, Bool-cases, ==_iff, inl, inr,
}
use v8_native_prototype.Base.Bits.{all_below, all_below_sound}
use v8_native_prototype.Opcodes.Types.{
  MachineType, FunctionSig, LocalType, ast_i32, local_type_for, mach_int8, mach_none, mach_uint8,
  mach_int16, mach_uint16, mach_int32, mach_uint32, mach_int64, mach_uint64, mach_any_tagged,
  type_any,
}
use v8_native_prototype.Opcodes.Enum.{WasmOpcode, opcode_byte, i32_add}
use v8_native_prototype.Opcodes.Signatures.{sig_of, simple_sig, memory_sig}
use v8_native_prototype.Opcodes.Rows.{simple_opcodes, other_opcodes}
use v8_native_prototype.Opcodes.Access.{memory_access}
use v8_native_prototype.Opcodes.Table.{to_opcode, find_opcode, signature, load_store_opcode_of}

-- Casting the byte of an opcode gives that opcode back, so no two opcodes share a byte.
pub to_opcode-opcode_byte : (op : WasmOpcode) → to_opcode (opcode_byte op) ≡ some op
unfolding to_opcode
to_opcode-opcode_byte i32_add = refl
to_opcode-opcode_byte op = refl

signature-opcode_byte :
    (op : WasmOpcode) → signature (opcode_byte op) ≡ Option.map sig_of (simple_sig op)
unfolding signature
signature-opcode_byte i32_add = refl
signature-opcode_byte op = refl

find_opcode-byte :
    (b : ℕ) (ops : List WasmOpcode) (op : WasmOpcode)
    → find_opcode b ops ≡ some op
    → opcode_byte op ≡ b
unfolding find_opcode
find_opcode-byte b [] op h = cc
find_opcode-byte b (x ∷ xs) op h = elim (Bool-cases (opcode_byte x == b)) [
  | inl e ↦ ap opcode_byte (sym (some-injective x op (rw e at h))) ∙ (==_iff _ _).0 e
  | inr e ↦ find_opcode-byte b xs op (rw e at h)
]

-- A successful cast keeps the byte.
pub opcode_byte-to_opcode : (b : ℕ) (op : WasmOpcode) → to_opcode b ≡ some op → opcode_byte op ≡ b
unfolding to_opcode
opcode_byte-to_opcode b op h = find_opcode-byte b (simple_opcodes ++ other_opcodes) op h

abbrev has_value {ℓ} : {A : Type ℓ} → Option A → Bool
has_value none = false
has_value (some a) = true

abbrev no_signature_test : ℕ → Bool
no_signature_test b = has_value (to_opcode b) || not (has_value (signature b))

no_signature_table : all_below 256 no_signature_test ≡ true
unfolding to_opcode signature
no_signature_table = refl

no_value {ℓ} : {A : Type ℓ} (o : Option A) → not (has_value o) ≡ true → o ≡ none
no_value none h = refl
no_value (some a) h = cc

no_signature : (b : ℕ) → b < 256 → to_opcode b ≡ none → signature b ≡ none
no_signature b h e =
    no_value (signature b) (rw e at (all_below_sound 256 no_signature_test b no_signature_table h))

-- The signature that the source's macros give a byte: that of the opcode's row, if it has one.
abbrev pub row_signature : Option WasmOpcode → Option FunctionSig
row_signature none = none
row_signature (some op) = Option.map sig_of (simple_sig op)

-- For every byte, the lookup through the table that InitSigTable fills gives the signature of the
-- opcode's row in FOREACH_SIMPLE_OPCODE, and a null pointer if the byte is in no such row.
pub signature_lem : (b : ℕ) → b < 256 → signature b ≡ row_signature (to_opcode b)
signature_lem b h = elim (Option-cases (to_opcode b)) [
  | inl e ↦ no_signature b h e ∙ ap row_signature (sym e)
  | inr (op, e) ↦
      ap signature (sym (opcode_byte-to_opcode b op e))
      ∙ signature-opcode_byte op
      ∙ ap row_signature (sym e)
]

-- The machine types that can stand in memory.
abbrev pub IsMemType : MachineType → Type 0
IsMemType mach_none = ⊥
IsMemType mach_any_tagged = ⊥
IsMemType type_any = ⊥
IsMemType _ = Unit {0}

-- The operands of a load or a store: an index, and for a store the value.
abbrev pub access_params : LocalType → Bool → List LocalType
access_params t true = ast_i32 ∷ t ∷ []
access_params t false = ast_i32 ∷ []

-- The type that stands in memory for a machine type: a store does not tell signed from unsigned, nor
-- does a load that takes all bits of its value.
abbrev full_width : MachineType → MachineType
full_width mach_uint32 = mach_int32
full_width mach_uint64 = mach_int64
full_width t = t

abbrev as_signed : MachineType → MachineType
as_signed mach_uint8 = mach_int8
as_signed mach_uint16 = mach_int16
as_signed t = full_width t

abbrev pub accessed : MachineType → Bool → MachineType
accessed t true = as_signed t
accessed t false = full_width t

-- For every machine type that can stand in memory, LoadStoreOpcodeOf picks an opcode whose
-- signature takes an i32 index, for a store also a value of the local type of that machine type,
-- and gives a value of that local type; and which the body decoder takes as a load or a store, as
-- asked, of that local type and of the machine type in memory: the same width, and for a load the
-- same sign where the value is wider than what is read.
pub load_store_opcode_of-sig :
    (t : MachineType) (store : Bool)
    → IsMemType t
    → (Option.map sig_of (memory_sig (load_store_opcode_of t store))
        ≡ some (record {
          returns = local_type_for t ∷ [];
          params = access_params (local_type_for t) store;
        }))
      × (memory_access (load_store_opcode_of t store)
          ≡ some (store, local_type_for t, accessed t store))
unfolding sig_of memory_sig load_store_opcode_of local_type_for memory_access
load_store_opcode_of-sig mach_none store h = absurd h
load_store_opcode_of-sig mach_any_tagged store h = absurd h
load_store_opcode_of-sig type_any store h = absurd h
load_store_opcode_of-sig mach_int8 true h = (refl, refl)
load_store_opcode_of-sig mach_int8 false h = (refl, refl)
load_store_opcode_of-sig t true h = (refl, refl)
load_store_opcode_of-sig t false h = (refl, refl)
