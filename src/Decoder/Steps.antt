-- ===== src/Decoder/Steps.antt =====
-- The readers of wasm/decoder.h never leave the bytes they were given, and the first error stays.
use v8_native_prototype.Base.{
  ℕ, zero, suc, List, get_or, bit_and, bit_or, ◌*◌, ◌^◌, ◌%◌, ◌+◌, ◌-◌, ◌≤◌, ◌≡◌, ◌≢◌, Bool, true,
  false, Option, arith, if◌then◌else◌,
}
use v8_native_prototype.Decoder.State.{Message, Decoder, wasm_decoder, ok, error}
use v8_native_prototype.Decoder.Reads.{
  u8, u16, u32, u32v, VarState, u32v_loop, u32v_end, u32v_body, u32v_finish,
}

-- Between start and limit; of a class whose onFirstError does not move the limit.
pub record IsReading (d : Decoder) : Type 0 where
  pub reader : d.class ≢ wasm_decoder
  pub above : d.start ≤ d.pc
  pub below : d.pc ≤ d.limit

-- What reading keeps: the bytes and their bounds, a pc that does not go back and stays within the
-- bounds, and the first error.
pub record Steps (d d' : Decoder) : Type 0 where
  pub same_mem : d'.mem ≡ d.mem
  pub same_start : d'.start ≡ d.start
  pub same_limit : d'.limit ≡ d.limit
  pub same_class : d'.class ≡ d.class
  pub forward : d.pc ≤ d'.pc
  pub within : d'.pc ≤ d'.limit
  pub first_error :
      ok d ≡ false
      → (d'.error_pc ≡ d.error_pc) × (d'.error_pt ≡ d.error_pt) × (d'.error_msg ≡ d.error_msg)

pub Steps-refl : (d : Decoder) → IsReading d → Steps d d
Steps-refl d v = ground arith

pub Steps-trans : {d d' d'' : Decoder} → Steps d d' → Steps d' d'' → Steps d d''
Steps-trans s t = ground arith

pub Steps-IsReading : {d d' : Decoder} → Steps d d' → IsReading d → IsReading d'
Steps-IsReading s v = ground arith

pub error-Steps :
    (pc : ℕ) (pt : Option ℕ) (msg : Message) (d : Decoder)
    → IsReading d
    → Steps d (error pc pt msg d)
unfolding error
error-Steps pc pt msg d v = ground arith

pub u8-Steps : (d : Decoder) → IsReading d → Steps d (u8 d).1
unfolding u8
u8-Steps d v = ground arith

pub u16-Steps : (d : Decoder) → IsReading d → Steps d (u16 d).1
unfolding u16
u16-Steps d v = ground arith

pub u32-Steps : (d : Decoder) → IsReading d → Steps d (u32 d).1
unfolding u32
u32-Steps d v = ground arith

u32v_finish-Steps :
    (d : Decoder) (end : ℕ) (s : VarState)
    → IsReading d
    → d.pc ≤ s.pc
    → s.pc ≤ d.limit
    → Steps d (u32v_finish d.pc end s d).1
unfolding u32v_finish
u32v_finish-Steps d end s v h k = ground arith

u32v_end-le : (d : Decoder) → d.pc ≤ d.limit → d.pc + (u32v_end d - d.pc) ≤ d.limit
unfolding u32v_end
u32v_end-le d h = ground arith

-- The loop of u32v goes forward, by at most its rounds.
pub u32v_loop_span :
    (n : ℕ) (mem : List ℕ) (shift : ℕ) (s : VarState)
    → (s.pc ≤ (u32v_loop n mem shift s).pc) × ((u32v_loop n mem shift s).pc ≤ s.pc + n)
unfolding u32v_loop
u32v_loop_span zero mem shift s = omega arith
u32v_loop_span (suc n) mem shift s =
    let b = get_or mem s.pc 0 in
    let result = bit_or s.result (bit_and b 0x7f * 2 ^ shift % 2 ^ 32) in
    ground
      (arith, u32v_loop_span n mem (shift + 7) (record { pc = s.pc + 1; b = b; result = result }))

u32v_body-Steps : (d : Decoder) → IsReading d → Steps d (u32v_body d).1
unfolding u32v_body
u32v_body-Steps d v =
    let start : VarState = record { pc = d.pc; b = 0; result = 0 } in
    let (low, high) = u32v_loop_span (u32v_end d - d.pc) d.mem 0 start in
    let s = u32v_loop (u32v_end d - d.pc) d.mem 0 start in
    u32v_finish-Steps d (u32v_end d) s v low (omega (arith, high, u32v_end-le d v.below))

pub u32v-Steps : (d : Decoder) → IsReading d → Steps d (u32v d).1
unfolding u32v
u32v-Steps d v = ground (arith, u32v_body-Steps d v)

-- One reader after another.
pub and_then :
    {d d' d'' : Decoder} → IsReading d → Steps d d' → (IsReading d' → Steps d' d'') → Steps d d''
and_then v s f = Steps-trans s (f (Steps-IsReading s v))

pub if-Steps : (b : Bool) {d x y : Decoder} → Steps d x → Steps d y → Steps d (if b then x else y)
if-Steps true s t = s
if-Steps false s t = t

-- An error that is raised only under a condition.
pub error_if-Steps :
    (b : Bool) (pc : ℕ) (pt : Option ℕ) (msg : Message) (d : Decoder)
    → IsReading d
    → Steps d (if b then error pc pt msg d else d)
error_if-Steps b pc pt msg d v = if-Steps b (error-Steps pc pt msg d v) (Steps-refl d v)

-- A decoder that is well after a step was well before it.
pub ok_before : {d d' : Decoder} → Steps d d' → ok d' ≡ true → ok d ≡ true
ok_before s h = ground arith

-- The bytes and the bounds stay, and pc does not go back and stays within the bounds.
abbrev pub StaysWithin : Decoder → Decoder → Type 0
StaysWithin d d' =
    (d'.mem ≡ d.mem)
    × (d'.start ≡ d.start)
    × (d'.limit ≡ d.limit)
    × (d.pc ≤ d'.pc)
    × (d'.pc ≤ d'.limit)

-- An error that is there already keeps its place and its message.
abbrev pub KeepsError : Decoder → Decoder → Type 0
KeepsError d d' =
    (d'.error_pc ≡ d.error_pc) × (d'.error_pt ≡ d.error_pt) × (d'.error_msg ≡ d.error_msg)

-- Every reader of a Decoder that is not an LR_WasmDecoder (whose onFirstError moves the limit),
-- called with pc within the bounds, leaves the bytes and the bounds alone and moves pc only
-- forward and within the bounds, whether there are enough bytes or not.
pub readers_stay_within :
    (d : Decoder)
    → IsReading d
    → StaysWithin d (u8 d).1
      × StaysWithin d (u16 d).1
      × StaysWithin d (u32 d).1
      × StaysWithin d (u32v d).1
readers_stay_within d v = ground (arith, u8-Steps d v, u16-Steps d v, u32-Steps d v, u32v-Steps d v)

-- Every reader of a Decoder that is not an LR_WasmDecoder, called with pc within the bounds on a
-- decoder that has failed, keeps the place and the message of the error.
pub readers_keep_error :
    (d : Decoder)
    → IsReading d
    → ok d ≡ false
    → KeepsError d (u8 d).1
      × KeepsError d (u16 d).1
      × KeepsError d (u32 d).1
      × KeepsError d (u32v d).1
readers_keep_error d v h = (
  (u8-Steps d v).first_error h,
  (u16-Steps d v).first_error h,
  (u32-Steps d v).first_error h,
  (u32v-Steps d v).first_error h,
)
