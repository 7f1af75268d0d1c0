-- ===== src/FunctionBody/DecodeMoves.antt =====
-- The decoding of one opcode in LR_WasmDecoder of wasm/ast-decoder.cc keeps the place of the decoder
-- and the types of what it has built.
use v8_native_prototype.Base.{
  ◌≡◌, ◌<◌, ap, sym, ◌∙◌, ℕ, zero, suc, ◌+◌, ◌*◌, refl, Bool, true, false, Option, none, some,
  arith, length, get_or, ltb, leb, ◌==◌, if◌then◌else◌,
}
use v8_native_prototype.Opcodes.Types.{
  FunctionSig, LocalType, local_type_for, ast_stmt, ast_i32, ast_end, ast_i64, ast_f32, ast_f64,
}
use v8_native_prototype.Opcodes.Enum.{
  WasmOpcode, nop, block, loop, if_op, if_else, select, br, br_if, table_switch, return,
  unreachable, i8_const, i32_const, i64_const, f32_const, f64_const, get_local, set_local,
  load_global, store_global, memory_size, grow_memory, call_function, call_indirect,
}
use v8_native_prototype.Opcodes.Table.{to_opcode, signature}
use v8_native_prototype.Decoder.State.{
  ok, Message, error, expected_table_switch, table_switch_without_entries, improperly_nested_branch,
  improperly_nested_conditional_branch, invalid_case_target, improper_branch_in_table_switch,
  unknown_opcode,
}
use v8_native_prototype.Decoder.Reads.{check_available}
use v8_native_prototype.WasmModule.Types.{
  FunctionEnv, get_local_type, get_global_type, get_function_signature, get_signature,
}
use v8_native_prototype.FunctionBody.State.{
  BodyState, set_env_state, kill, control_end, push_block, steal, split, prepare_for_loop, set_env,
}
use v8_native_prototype.FunctionBody.Operands.{
  fail, half_word, operand_u8, check_operand, local_operand, global_operand, function_sig_operand,
  sig_operand, memory_access_operand, unsigned_leb128_operand,
}
use v8_native_prototype.FunctionBody.Stack.{MemoryUse, load, store, no_access, leaf, shift}
use v8_native_prototype.FunctionBody.Decode.{
  begin_block, begin_loop, push_continue, verify_target, verify_table, check_bytes, decode_block,
  decode_loop, decode_branch, decode_table_switch, decode_return, decode_unreachable,
  decode_get_local, decode_set_local, decode_load_global, decode_store_global, decode_call_function,
  decode_call_indirect, decode_memory, decode_opcode, decode_other, decode_one, call_type,
}
use v8_native_prototype.FunctionBody.Typing.{
  childless_type, opcode_type, other_type, fixed_type, called, uncalled, immediate,
}
use v8_native_prototype.FunctionBody.Keeps.{
  Keeps, IsBody, fail-Keeps, check_operand-Keeps, operand_u8-Keeps, Keeps-refl, Keeps-trans,
  Keeps-IsBody, and_then, if-Keeps, fail_if-Keeps, quiet-Keeps, steal-Keeps, local_operand-Keeps,
  global_operand-Keeps, function_sig_operand-Keeps, sig_operand-Keeps, memory_access_operand-Keeps,
}
use v8_native_prototype.FunctionBody.WellTyped.{
  Moves, Keeps-Moves, Moves-trans, move_then, leaf-Moves, shift-Moves, shift_waiting-Moves,
  shift_positive-Moves, IsChildless,
}

pub begin_block-Keeps : (s : BodyState) → Keeps s (begin_block s)
unfolding begin_block push_block set_env
begin_block-Keeps s =
    let s₁ = push_block s.ssa_env s in
    let c = steal s.ssa_env s₁ in
    Keeps-trans (quiet-Keeps s s₁ refl refl refl)
      (Keeps-trans (steal-Keeps s.ssa_env s₁) (quiet-Keeps c.1 _ refl refl refl))

pub begin_loop-Keeps : (s : BodyState) → Keeps s (begin_loop s)
unfolding begin_loop steal push_block set_env split prepare_for_loop push_continue
begin_loop-Keeps s = ground arith

verify_target-Keeps :
    (case_count p : ℕ) (s : BodyState) → IsBody s → Keeps s (verify_target case_count p s)
unfolding verify_target
verify_target-Keeps case_count p s w =
    if-Keeps _ (fail_if-Keeps _ p none improper_branch_in_table_switch s w)
      (fail_if-Keeps _ p none invalid_case_target s w)

pub verify_table-Keeps :
    (n case_count p : ℕ) (s : BodyState) → IsBody s → Keeps s (verify_table n case_count p s)
unfolding verify_table
verify_table-Keeps zero case_count p s w = Keeps-refl s
verify_table-Keeps (suc n) case_count p s w =
    and_then w (verify_target-Keeps case_count p s w)
      (verify_table-Keeps n case_count (p + 2) (verify_target case_count p s))

pub check_bytes-Keeps : (size : ℕ) (s : BodyState) → IsBody s → Keeps s (check_bytes size s).1
unfolding check_bytes check_available error
check_bytes-Keeps size s w = ground arith

module _ (env : FunctionEnv) where
  fail-Moves :
      (pc : ℕ) (pt : Option ℕ) (msg : Message) (s : BodyState)
      → IsBody s
      → Moves env s (fail pc pt msg s)
  fail-Moves pc pt msg s w = Keeps-Moves env (fail-Keeps pc pt msg s w)

  if-Moves :
      (b : Bool) {s x y : BodyState}
      → Moves env s x
      → Moves env s y
      → Moves env s (if b then x else y)
  if-Moves true k l = k
  if-Moves false k l = l

  if-Moves-of :
      (b : Bool) {s x y : BodyState}
      → Moves env s x
      → (b ≡ false → Moves env s y)
      → Moves env s (if b then x else y)
  if-Moves-of true k l = k
  if-Moves-of false k l = l refl

  -- The type of a tree without children of the opcode at pc.
  abbrev Childless : BodyState → Option LocalType → Type 0
  Childless s type = childless_type env s.d.mem s.d.limit s.d.pc ≡ type

  childless_behind :
      {s s' : BodyState} {type : LocalType}
      → Keeps s s'
      → Childless s (some type)
      → IsChildless env type s'
  childless_behind k e = λ g. rw (k.same_mem, k.same_limit g, k.same_pc) e

  decode_block-Moves :
      (s : BodyState) → IsBody s → Childless s (some ast_stmt) → Moves env s (decode_block env s)
  unfolding decode_block
  decode_block-Moves s w e =
      let (len, s₁) = operand_u8 s.d.pc s in
      move_then env w (Keeps-Moves env (operand_u8-Keeps s.d.pc s w)) λ v.
        if-Moves-of (ltb len 1)
          (leaf-Moves env ast_stmt s₁ v (childless_behind (operand_u8-Keeps s.d.pc s w) e))
          λ h.
            (Moves-trans env (shift_positive-Moves env ast_end len s₁ (ground (arith, h)) v)
              (Keeps-Moves env (begin_block-Keeps (shift env ast_end len s₁))))

  decode_loop-Moves :
      (s : BodyState) → IsBody s → Childless s (some ast_stmt) → Moves env s (decode_loop env s)
  unfolding decode_loop
  decode_loop-Moves s w e =
      let (len, s₁) = operand_u8 s.d.pc s in
      move_then env w (Keeps-Moves env (operand_u8-Keeps s.d.pc s w)) λ v.
        if-Moves-of (ltb len 1)
          (leaf-Moves env ast_stmt s₁ v (childless_behind (operand_u8-Keeps s.d.pc s w) e))
          λ h.
            (Moves-trans env (shift_positive-Moves env ast_end len s₁ (ground (arith, h)) v)
              (Keeps-Moves env (begin_loop-Keeps (shift env ast_end len s₁))))

  decode_branch-Moves :
      (type : LocalType) (count : ℕ) (msg : Message) (s : BodyState)
      → 0 < count
      → IsBody s
      → Moves env s (decode_branch env type count msg s)
  unfolding decode_branch
  decode_branch-Moves type count msg s c w =
      let (depth, s₁) = operand_u8 s.d.pc s in
      let s₂ = shift env type count s₁ in
      move_then env w (Keeps-Moves env (operand_u8-Keeps s.d.pc s w)) λ v.
        move_then env v (shift_positive-Moves env type count s₁ c v) λ u.
          if-Moves (leb (length s₂.blocks) depth) (fail-Moves s₂.d.pc none msg s₂ u)
            (Keeps-Moves env (Keeps-refl s₂))

  -- The four ends of the case for a switch.
  decode_table_switch-Moves : (s : BodyState) → IsBody s → Moves env s (decode_table_switch env s).1
  unfolding decode_table_switch
  decode_table_switch-Moves s w =
      let case_count = half_word s.d.mem (s.d.pc + 1) in
      let table_count = half_word s.d.mem (s.d.pc + 3) in
      let s₁ = (check_bytes 5 s).1 in
      let s₂ = (check_bytes (5 + table_count * 2) s₁).1 in
      let s₃ = shift env ast_end (1 + case_count) s₂ in
      let k = check_bytes-Keeps 5 s w in
      let v = Keeps-IsBody k w in
      let l = Keeps-trans k (check_bytes-Keeps (5 + table_count * 2) s₁ v) in
      let u = Keeps-IsBody l w in
      let whole = move_then env w (Keeps-Moves env l) λ _.
        move_then env u (shift_positive-Moves env ast_end (1 + case_count) s₂ (omega arith) u)
          λ x. Keeps-Moves env (verify_table-Keeps table_count case_count (s.d.pc + 5) s₃ x) in
      ground (
        arith,
        Keeps-Moves env (Keeps-trans k (fail-Keeps s₁.d.pc none expected_table_switch s₁ v)),
        Keeps-Moves env (Keeps-trans k (fail-Keeps s₁.d.pc none table_switch_without_entries s₁ v)),
        Keeps-Moves env (Keeps-trans l (fail-Keeps s₂.d.pc none expected_table_switch s₂ u)),
        whole,
      )

  kill-Keeps : (s : BodyState) → Keeps s (kill s.ssa_env control_end s)
  unfolding kill set_env_state
  kill-Keeps s = quiet-Keeps s _ refl refl refl

  kill-Moves : (s : BodyState) → Moves env s (kill s.ssa_env control_end s)
  kill-Moves s = Keeps-Moves env (kill-Keeps s)

  decode_return-Moves :
      (s : BodyState) → IsBody s → Childless s (some ast_end) → Moves env s (decode_return env s)
  unfolding decode_return kill
  decode_return-Moves s w e =
      if-Moves-of (length env.sig.returns == 0)
        (move_then env w (kill-Moves s) λ v.
          leaf-Moves env ast_end (kill s.ssa_env control_end s) v
            (childless_behind (kill-Keeps s) e))
        λ h. shift_positive-Moves env ast_end (length env.sig.returns) s (ground (arith, h)) w

  decode_unreachable-Moves :
      (s : BodyState)
      → IsBody s
      → Childless s (some ast_end)
      → Moves env s (decode_unreachable env s)
  unfolding decode_unreachable kill
  decode_unreachable-Moves s w e = move_then env w (kill-Moves s) λ v.
      leaf-Moves env ast_end (kill s.ssa_env control_end s) v (childless_behind (kill-Keeps s) e)

  function_sig_operand-sig :
      (pc : ℕ) (s : BodyState)
      → let (o, len, s₁) = function_sig_operand env pc s in
        ok s₁.d ≡ true
        → o ≡ get_function_signature env.module_env (immediate env s.d.mem s.d.limit pc)
  unfolding function_sig_operand unsigned_leb128_operand fail error
  function_sig_operand-sig pc s h = ground arith

  sig_operand-sig :
      (pc : ℕ) (s : BodyState)
      → let (o, len, s₁) = sig_operand env pc s in
        ok s₁.d ≡ true → o ≡ get_signature env.module_env (immediate env s.d.mem s.d.limit pc)
  unfolding sig_operand unsigned_leb128_operand fail error
  sig_operand-sig pc s h = ground arith

  call-Moves :
      (o : Option FunctionSig) (s : BodyState)
      → IsBody s
      → IsChildless env (called o) s
      → Moves env s (elim o as (λ x. BodyState) [
        | none ↦ leaf env ast_i32 s
        | some f ↦ shift env (call_type f) (length f.params) s
      ])
  unfolding call_type
  call-Moves none s w c = leaf-Moves env ast_i32 s w c
  call-Moves (some f) s w c = shift-Moves env (call_type f) (length f.params) s w c

  call_indirect-Moves :
      (o : Option FunctionSig) (s : BodyState)
      → IsBody s
      → (o ≡ none → IsChildless env ast_i32 s)
      → Moves env s (elim o as (λ x. BodyState) [
        | none ↦ leaf env ast_i32 s
        | some f ↦ shift env (call_type f) (1 + length f.params) s
      ])
  call_indirect-Moves none s w c = leaf-Moves env ast_i32 s w (c refl)
  call_indirect-Moves (some f) s w c =
      shift_positive-Moves env (call_type f) (1 + length f.params) s (omega arith) w

  decode_call_function-Moves :
      (s : BodyState)
      → IsBody s
      → Childless s (
          some (
            called
              (get_function_signature env.module_env (immediate env s.d.mem s.d.limit s.d.pc))))
      → Moves env s (decode_call_function env s).1
  unfolding decode_call_function
  decode_call_function-Moves s w e =
      let (o, len, s₁) = function_sig_operand env s.d.pc s in
      let k = function_sig_operand-Keeps env s.d.pc s w in
      move_then env w (Keeps-Moves env k) λ v. call-Moves o s₁ v λ g.
        childless_behind k e g
        ∙ ap (λ x. some (called x)) (sym (function_sig_operand-sig s.d.pc s g))

  decode_call_indirect-Moves :
      (s : BodyState)
      → IsBody s
      → Childless s
          (uncalled (get_signature env.module_env (immediate env s.d.mem s.d.limit s.d.pc)))
      → Moves env s (decode_call_indirect env s).1
  unfolding decode_call_indirect
  decode_call_indirect-Moves s w e =
      let (o, len, s₁) = sig_operand env s.d.pc s in
      let k = sig_operand-Keeps env s.d.pc s w in
      move_then env w (Keeps-Moves env k) λ v.
        call_indirect-Moves o s₁ v
          λ n g. childless_behind k (e ∙ ap uncalled (sym (sig_operand-sig s.d.pc s g) ∙ n)) g

  decode_memory-Moves :
      (m : MemoryUse) (s : BodyState) → IsBody s → Moves env s (decode_memory env m s).1
  unfolding decode_memory
  decode_memory-Moves (load type) s w =
      move_then env w (Keeps-Moves env (memory_access_operand-Keeps s.d.pc s w))
        (shift_positive-Moves env type 1 (memory_access_operand s.d.pc s).1 (omega arith))
  decode_memory-Moves (store type) s w =
      move_then env w (Keeps-Moves env (memory_access_operand-Keeps s.d.pc s w))
        (shift_positive-Moves env type 2 (memory_access_operand s.d.pc s).1 (omega arith))
  decode_memory-Moves no_access s w = fail-Moves s.d.pc none unknown_opcode s w

  const-Moves :
      (type : LocalType) (size : ℕ) (s : BodyState)
      → IsBody s
      → Childless s (some type)
      → Moves env s (leaf env type (check_operand size s.d.pc s))
  const-Moves type size s w e =
      let k = check_operand-Keeps size s.d.pc s w in
      move_then env w (Keeps-Moves env k)
        λ v. leaf-Moves env type (check_operand size s.d.pc s) v (childless_behind k e)

  local_operand-type :
      (pc : ℕ) (s : BodyState)
      → let (type, len, s₁) = local_operand env pc s in
        ok s₁.d ≡ true → type ≡ get_local_type env (immediate env s.d.mem s.d.limit pc)
  unfolding local_operand unsigned_leb128_operand fail error
  local_operand-type pc s h = ground arith

  global_operand-type :
      (pc : ℕ) (s : BodyState)
      → let (type, len, s₁) = global_operand env pc s in
        ok s₁.d ≡ true
        → type
          ≡ local_type_for (get_global_type env.module_env (immediate env s.d.mem s.d.limit pc))
  unfolding global_operand unsigned_leb128_operand fail error
  global_operand-type pc s h = ground arith

  local_then_leaf-Moves :
      (s : BodyState)
      → IsBody s
      → Childless s (some (get_local_type env (immediate env s.d.mem s.d.limit s.d.pc)))
      → Moves env s (decode_get_local env s).1
  unfolding decode_get_local
  local_then_leaf-Moves s w e =
      let (type, len, s₁) = local_operand env s.d.pc s in
      let k = local_operand-Keeps env s.d.pc s w in
      move_then env w (Keeps-Moves env k) λ v.
        leaf-Moves env type s₁ v
          λ g. childless_behind k e g ∙ ap some (sym (local_operand-type s.d.pc s g))

  local_then_shift-Moves : (s : BodyState) → IsBody s → Moves env s (decode_set_local env s).1
  unfolding decode_set_local
  local_then_shift-Moves s w =
      let (type, len, s₁) = local_operand env s.d.pc s in
      move_then env w (Keeps-Moves env (local_operand-Keeps env s.d.pc s w))
        (shift_waiting-Moves env type 0 s₁)

  global_then_leaf-Moves :
      (s : BodyState)
      → IsBody s
      → Childless s (
          some (
            local_type_for
              (get_global_type env.module_env (immediate env s.d.mem s.d.limit s.d.pc))))
      → Moves env s (decode_load_global env s).1
  unfolding decode_load_global
  global_then_leaf-Moves s w e =
      let (type, len, s₁) = global_operand env s.d.pc s in
      let k = global_operand-Keeps env s.d.pc s w in
      move_then env w (Keeps-Moves env k) λ v.
        leaf-Moves env type s₁ v
          λ g. childless_behind k e g ∙ ap some (sym (global_operand-type s.d.pc s g))

  global_then_shift-Moves : (s : BodyState) → IsBody s → Moves env s (decode_store_global env s).1
  unfolding decode_store_global
  global_then_shift-Moves s w =
      let (type, len, s₁) = global_operand env s.d.pc s in
      move_then env w (Keeps-Moves env (global_operand-Keeps env s.d.pc s w))
        (shift_waiting-Moves env type 0 s₁)

  decode_opcode-Moves :
      (op : WasmOpcode) (s : BodyState)
      → IsBody s
      → Childless s (opcode_type env s.d.mem s.d.limit op s.d.pc)
      → Moves env s (decode_opcode env op s).1
  unfolding decode_opcode
  decode_opcode-Moves nop s w e = leaf-Moves env ast_stmt s w (λ _. e)
  decode_opcode-Moves block s w e = decode_block-Moves s w e
  decode_opcode-Moves loop s w e = decode_loop-Moves s w e
  decode_opcode-Moves if_op s w e = shift_waiting-Moves env ast_stmt 1 s w
  decode_opcode-Moves if_else s w e = shift_waiting-Moves env ast_end 2 s w
  decode_opcode-Moves select s w e = shift_waiting-Moves env ast_stmt 2 s w
  decode_opcode-Moves br s w e =
      decode_branch-Moves ast_end 1 improperly_nested_branch s (omega arith) w
  decode_opcode-Moves br_if s w e =
      decode_branch-Moves ast_stmt 2 improperly_nested_conditional_branch s (omega arith) w
  decode_opcode-Moves table_switch s w e = decode_table_switch-Moves s w
  decode_opcode-Moves return s w e = decode_return-Moves s w e
  decode_opcode-Moves unreachable s w e = decode_unreachable-Moves s w e
  decode_opcode-Moves i8_const s w e = const-Moves ast_i32 1 s w e
  decode_opcode-Moves i32_const s w e = const-Moves ast_i32 4 s w e
  decode_opcode-Moves i64_const s w e = const-Moves ast_i64 8 s w e
  decode_opcode-Moves f32_const s w e = const-Moves ast_f32 4 s w e
  decode_opcode-Moves f64_const s w e = const-Moves ast_f64 8 s w e
  decode_opcode-Moves get_local s w e = local_then_leaf-Moves s w e
  decode_opcode-Moves set_local s w e = local_then_shift-Moves s w
  decode_opcode-Moves load_global s w e = global_then_leaf-Moves s w e
  decode_opcode-Moves store_global s w e = global_then_shift-Moves s w
  decode_opcode-Moves memory_size s w e = leaf-Moves env ast_i32 s w (λ _. e)
  decode_opcode-Moves grow_memory s w e = shift_waiting-Moves env ast_i32 0 s w
  decode_opcode-Moves call_function s w e = decode_call_function-Moves s w e
  decode_opcode-Moves call_indirect s w e = decode_call_indirect-Moves s w e
  decode_opcode-Moves op s w e = decode_memory-Moves _ s w

  decode_other-Moves :
      (o : Option WasmOpcode) (s : BodyState)
      → IsBody s
      → Childless s (other_type env s.d.mem s.d.limit o s.d.pc)
      → Moves env s (decode_other env o s).1
  unfolding decode_other
  decode_other-Moves none s w e = fail-Moves s.d.pc none unknown_opcode s w
  decode_other-Moves (some op) s w e = decode_opcode-Moves op s w e

  one-Moves :
      (o : Option FunctionSig) (op : Option WasmOpcode) (s : BodyState)
      → IsBody s
      → Childless s (fixed_type o (other_type env s.d.mem s.d.limit op s.d.pc))
      → Moves env s
          (elim o as (λ x. Option ℕ × BodyState) [
            | none ↦ decode_other env op s
            | some sig ↦ (some 1, shift env (get_or sig.returns 0 ast_stmt) (length sig.params) s)
          ]).1
  one-Moves none op s w e = decode_other-Moves op s w e
  one-Moves (some sig) op s w e = shift-Moves env _ (length sig.params) s w λ _. e

  -- Decoding one opcode keeps the decoder's place.
  pub decode_one-Moves : (s : BodyState) → IsBody s → Moves env s (decode_one env s).1
  unfolding decode_one
  decode_one-Moves s w =
      let opcode = get_or s.d.mem s.d.pc 0 in
      one-Moves (signature opcode) (to_opcode opcode) s w refl
