-- ===== src/FunctionBody/State.antt =====
-- The data of LR_WasmDecoder in wasm/ast-decoder.cc as VerifyWasmCode uses it, with no graph builder:
-- trees without their graph nodes, environments without control, effect and locals. The pointers to
-- environments are indices into the list of all environments that were allocated. Every stack has
-- its top first.
use v8_native_prototype.Base.{
  ℕ, suc, ◌-◌, ◌≡◌, refl, ap, sym, ◌∙◌, Bool, true, false, List, [], ◌∷◌, ◌++◌, Option, none, some,
  length, get_elem?, get_or, set, drop, leb, ◌==◌, if◌then◌else◌, ==_iff,
}
use v8_native_prototype.Opcodes.Types.{
  LocalType, MachineType, mach_none, mach_int8, mach_uint8, mach_int16, mach_uint16, mach_int32,
  mach_uint32, mach_int64, mach_uint64, mach_float32, mach_float64, type_any, mach_any_tagged,
}
use v8_native_prototype.Decoder.State.{Decoder}

-- Tree, with the children that have been filled in, the last one outermost.
mutual
  pub data Tree : Type 0 where
    tree : LocalType → ℕ → ℕ → Trees → Tree

  pub data Trees : Type 0 where
    nil : Trees
    snoc : Trees → Tree → Trees

abbrev pub tree_type : Tree → LocalType
tree_type (tree type count pc children) = type

abbrev pub tree_pc : Tree → ℕ
tree_pc (tree type count pc children) = pc

abbrev pub tree_count : Tree → ℕ
tree_count (tree type count pc children) = count

abbrev pub size : Trees → ℕ
size nil = 0
size (snoc ts t) = suc (size ts)

-- Production, with its tree in place; `index` is the number of children.
pub record Production : Type 0 where
  pub type : LocalType
  pub count : ℕ
  pub pc : ℕ
  pub children : Trees

abbrev pub index : Production → ℕ
index p = size p.children

unfoldable pub done : Production → Bool
done p = leb p.count (index p)

-- p->tree.
abbrev pub production_tree : Production → Tree
production_tree p = tree p.type p.count p.pc p.children

abbrev last_of : Trees → Option Tree
last_of nil = none
last_of (snoc ts t) = some t

-- p->last().
unfoldable pub last : Production → Option Tree
last p = last_of p.children

-- SsaEnv::State.
pub data SsaState : Type 0 where
  control_end unreachable reached merged : SsaState

unfoldable pub go : SsaState → Bool
go control_end = false
go unreachable = false
go reached = true
go merged = true

-- Block; no stack depth stands for a negative one.
pub record Block : Type 0 where
  pub ssa_env : ℕ
  pub stack_depth : Option ℕ

pub record IfEnv : Type 0 where
  pub false_env : Option ℕ
  pub merge_env : Option ℕ
  pub case_envs : List ℕ

pub record BodyState : Type 0 where
  pub d : Decoder
  pub envs : List SsaState
  pub ssa_env : ℕ
  pub trees : List Tree
  pub stack : List Production
  pub blocks : List Block
  pub ifs : List IfEnv

-- Equality of machine types, by their places in the list.
unfoldable pub type_code : MachineType → ℕ
type_code mach_none = 0
type_code mach_int8 = 1
type_code mach_uint8 = 2
type_code mach_int16 = 3
type_code mach_uint16 = 4
type_code mach_int32 = 5
type_code mach_uint32 = 6
type_code mach_int64 = 7
type_code mach_uint64 = 8
type_code mach_float32 = 9
type_code mach_float64 = 10
type_code type_any = 11
type_code mach_any_tagged = 12

unfoldable pub same_type : MachineType → MachineType → Bool
unfolding type_code
same_type a b = type_code a == type_code b

abbrev pub all_types : List MachineType
all_types =
    mach_none ∷ mach_int8 ∷ mach_uint8 ∷ mach_int16 ∷ mach_uint16 ∷ mach_int32 ∷ mach_uint32
    ∷ mach_int64 ∷ mach_uint64 ∷ mach_float32 ∷ mach_float64 ∷ type_any ∷ mach_any_tagged ∷ []

get_or-type_code : (a : MachineType) → get_or all_types (type_code a) mach_none ≡ a
unfolding type_code
get_or-type_code mach_none = refl
get_or-type_code a = refl

pub same_type-eq : (a b : MachineType) → same_type a b ≡ true → a ≡ b
unfolding same_type
same_type-eq a b h =
    sym (get_or-type_code a)
    ∙ ap (λ (n : ℕ). get_or all_types n mach_none) ((==_iff _ _).0 h)
    ∙ get_or-type_code b

-- The state of an environment.
unfoldable pub env_state : BodyState → ℕ → SsaState
env_state s e = get_or s.envs e control_end

unfoldable pub set_env_state : ℕ → SsaState → BodyState → BodyState
set_env_state e state s = record s { envs = set s.envs e state }

-- zone_->New(sizeof(SsaEnv)) with a state.
unfoldable pub new_env : SsaState → BodyState → ℕ × BodyState
new_env state s = (length s.envs, record s { envs = s.envs ++ (state ∷ []) })

-- Whether the current environment is reachable.
unfoldable pub is_reachable : BodyState → Bool
unfolding env_state go
is_reachable s = go (env_state s s.ssa_env)

-- Kill.
unfoldable pub kill : ℕ → SsaState → BodyState → BodyState
unfolding set_env_state
kill e state s = set_env_state e state s

-- SetEnv.
unfoldable pub set_env : ℕ → BodyState → BodyState
set_env e s = record s { ssa_env = e }

-- Split.
unfoldable pub split : ℕ → BodyState → ℕ × BodyState
unfolding new_env env_state go
split from s = new_env (if go (env_state s from) then reached else unreachable) s

-- UnreachableEnv.
unfoldable pub unreachable_env : BodyState → ℕ × BodyState
unfolding new_env
unreachable_env s = new_env unreachable s

-- Steal.
unfoldable pub steal : ℕ → BodyState → ℕ × BodyState
unfolding unreachable_env new_env env_state go kill
steal from s =
    let (e, s₁) = new_env reached s in
    if go (env_state s from) then (e, kill from unreachable s₁) else unreachable_env s

-- What Goto makes of the state of its target.
unfoldable pub merged_state : SsaState → SsaState
merged_state control_end = control_end
merged_state unreachable = reached
merged_state reached = merged
merged_state merged = merged

-- Goto.
unfoldable pub goto : ℕ → ℕ → BodyState → BodyState
unfolding env_state set_env_state go merged_state kill
goto from to s =
    if go (env_state s from)
    then kill from control_end (set_env_state to (merged_state (env_state s to)) s)
    else s

-- PrepareForLoop.
unfoldable pub prepare_for_loop : ℕ → BodyState → BodyState
unfolding env_state set_env_state go
prepare_for_loop e s = if go (env_state s e) then set_env_state e merged s else s

-- BuildInfiniteLoop.
unfoldable pub build_infinite_loop : BodyState → BodyState
unfolding prepare_for_loop split set_env_state goto is_reachable
build_infinite_loop s =
    let cont_env = s.ssa_env in
    let (e, s₁) = split cont_env (prepare_for_loop cont_env s) in
    if is_reachable s
    then goto e cont_env (set_env_state e reached (record s₁ { ssa_env = e }))
    else s

-- static_cast<int>(stack_.size() - 1).
unfoldable pub top_depth : List Production → Option ℕ
top_depth [] = none
top_depth (p ∷ ps) = some (length ps)

-- PushBlock.
unfoldable pub push_block : ℕ → BodyState → BodyState
unfolding top_depth
push_block e s = record s {
  blocks = record { ssa_env = e; stack_depth = top_depth s.stack } ∷ s.blocks;
}

-- blocks_.pop_back() and ifs_.pop_back().
unfoldable pub pop_block : BodyState → BodyState
pop_block s = record s { blocks = drop 1 s.blocks }

unfoldable pub pop_if : BodyState → BodyState
pop_if s = record s { ifs = drop 1 s.ifs }

-- &stack_[depth], where depth 0 is the bottom; the position from the top.
unfoldable pub stack_position : ℕ → BodyState → ℕ
stack_position depth s = length s.stack - 1 - depth

-- stack_[depth].tree->type = type.
unfoldable pub set_production_type : ℕ → LocalType → BodyState → BodyState
unfolding stack_position
set_production_type depth type s = elim (get_elem? s.stack (stack_position depth s)) [
  | none ↦ s
  | some p ↦ record s { stack = set s.stack (stack_position depth s) (record p { type = type }) }
]
