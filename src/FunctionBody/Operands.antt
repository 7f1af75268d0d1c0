-- ===== src/FunctionBody/Operands.antt =====
-- The operands of an opcode in LR_WasmDecoder of wasm/ast-decoder.cc, and its type check. Each reads
-- at a pc and can raise an error.
use v8_native_prototype.Base.{
  ℕ, ◌+◌, ◌-◌, ◌*◌, bit_and, Bool, not, ◌||◌, List, Option, none, some, get_or, ltb, ◌==◌,
  if◌then◌else◌,
}
use v8_native_prototype.Opcodes.Types.{FunctionSig, LocalType, ast_stmt, ast_end, local_type_for}
use v8_native_prototype.Leb.Read.{
  no_error, invalid_leb128, missing_leb128, ReadUnsignedLeb128ErrorCode,
  read_unsigned_leb128_operand,
}
use v8_native_prototype.Decoder.State.{
  Message, error, expected_operand, invalid_varint, expected_varint, local_out_of_range,
  global_out_of_range, function_out_of_range, signature_out_of_range, operand_type,
}
use v8_native_prototype.WasmModule.Types.{
  FunctionEnv, is_valid_local, get_local_type, is_valid_global, is_valid_function,
  is_valid_signature, get_global_type, get_function_signature, get_signature,
}
use v8_native_prototype.FunctionBody.State.{
  BodyState, Production, tree_type, tree_pc, index, last, same_type,
}

-- error(pc, pt, msg) on the decoder part of the state.
unfoldable pub fail : ℕ → Option ℕ → Message → BodyState → BodyState
unfolding error
fail pc pt msg s = record s { d = error pc pt msg s.d }

-- *reinterpret_cast<const uint16_t*>(p), on a little-endian target.
unfoldable pub half_word : List ℕ → ℕ → ℕ
half_word mem p = get_or mem p 0 + get_or mem (p + 1) 0 * 256

-- The check of Operand<V>(pc), where V has `size` bytes.
unfoldable pub operand_missing : ℕ → ℕ → BodyState → Bool
operand_missing size pc s = ltb s.d.limit (pc + 1 + size)

-- Operand<V>(pc) of a constant, whose value is not used without a graph builder.
unfoldable pub check_operand : ℕ → ℕ → BodyState → BodyState
unfolding operand_missing fail
check_operand size pc s =
    if operand_missing size pc s then fail pc none (expected_operand size) s else s

-- Operand<uint8_t>(pc), which is -1 where the byte is missing.
unfoldable pub operand_u8 : ℕ → BodyState → ℕ × BodyState
unfolding operand_missing check_operand
operand_u8 pc s =
    (if operand_missing 1 pc s then 255 else get_or s.d.mem (pc + 1) 0, check_operand 1 pc s)

-- The two tests on the error code in UnsignedLEB128Operand.
unfoldable pub leb_error : ReadUnsignedLeb128ErrorCode → ℕ → BodyState → BodyState
leb_error no_error pc s = s
leb_error invalid_leb128 pc s = fail pc none invalid_varint s
leb_error missing_leb128 pc s = fail pc none expected_varint s

-- UnsignedLEB128Operand(pc, length): the value, the length, and the state.
unfoldable pub unsigned_leb128_operand : ℕ → BodyState → ℕ × ℕ × BodyState
unfolding leb_error
unsigned_leb128_operand pc s =
    let r = read_unsigned_leb128_operand s.d.mem (pc + 1) s.d.limit in
    (r.value, r.len + 1, leb_error r.code pc s)

-- MemoryAccess::OffsetField::decode.
unfoldable pub has_offset : ℕ → Bool
has_offset bitfield = not (bit_and bitfield 0x10 == 0)

-- MemoryAccessOperand(pc, length, offset): the length and the state.
unfoldable pub memory_access_operand : ℕ → BodyState → ℕ × BodyState
unfolding has_offset
memory_access_operand pc s =
    let (bitfield, s₁) = operand_u8 pc s in
    let (offset, len, s₂) = unsigned_leb128_operand (pc + 1) s₁ in
    if has_offset bitfield then (len + 1, s₂) else (2, s₁)

module _ (env : FunctionEnv) where
  -- LocalOperand(pc, index, length): the type, the length, and the state.
  unfoldable pub local_operand : ℕ → BodyState → LocalType × ℕ × BodyState
  local_operand pc s =
      let (i, len, s₁) = unsigned_leb128_operand pc s in
      if is_valid_local env i
      then (get_local_type env i, len, s₁)
      else (ast_stmt, len, fail pc none local_out_of_range s₁)

  -- GlobalOperand(pc, index, length).
  unfoldable pub global_operand : ℕ → BodyState → LocalType × ℕ × BodyState
  global_operand pc s =
      let (i, len, s₁) = unsigned_leb128_operand pc s in
      if is_valid_global env.module_env i
      then (local_type_for (get_global_type env.module_env i), len, s₁)
      else (ast_stmt, len, fail pc none global_out_of_range s₁)

  -- FunctionSigOperand(pc, index, length); `none` is the null pointer.
  unfoldable pub function_sig_operand : ℕ → BodyState → Option FunctionSig × ℕ × BodyState
  function_sig_operand pc s =
      let (i, len, s₁) = unsigned_leb128_operand pc s in
      if is_valid_function env.module_env i
      then (get_function_signature env.module_env i, len, s₁)
      else (none, len, fail pc none function_out_of_range s₁)

  -- SigOperand(pc, index, length).
  unfoldable pub sig_operand : ℕ → BodyState → Option FunctionSig × ℕ × BodyState
  sig_operand pc s =
      let (i, len, s₁) = unsigned_leb128_operand pc s in
      if is_valid_signature env.module_env i
      then (get_signature env.module_env i, len, s₁)
      else (none, len, fail pc none signature_out_of_range s₁)

-- Whether TypeCheckLast lets a result stand where a type is expected.
unfoldable pub accepts : LocalType → LocalType → Bool
unfolding same_type
accepts expected result =
    same_type result expected || same_type result ast_end || same_type expected ast_stmt

-- TypeCheckLast(p, expected).
unfoldable pub type_check_last : Production → LocalType → BodyState → BodyState
type_check_last p expected s = elim (last p) [
  | none ↦ s
  | some t ↦
      if accepts expected (tree_type t)
      then s
      else fail p.pc (some (tree_pc t)) (operand_type (index p - 1) expected (tree_type t)) s
]

-- sig->GetParam(i); a read behind the end is ast_stmt.
unfoldable pub get_param : FunctionSig → ℕ → LocalType
get_param sig i = get_or sig.params i ast_stmt

-- sig->GetReturn(i), the same way.
unfoldable pub get_return : FunctionSig → ℕ → LocalType
get_return sig i = get_or sig.returns i ast_stmt
