-- ===== src/ModuleDecoder/EntrySteps.antt =====
-- The entry loops of wasm/module-decoder.cc go forward through the module's bytes.
use v8_native_prototype.Base.{
  ℕ, zero, suc, ◌+◌, ◌≤◌, ◌<◌, ◌≡◌, Bool, true, false, List, Bool-cases, inl, inr, arith, leb,
}
use v8_native_prototype.Decoder.State.{Decoder, ok, failed}
use v8_native_prototype.Decoder.Reads.{u8, u16}
use v8_native_prototype.Decoder.Steps.{
  IsReading, Steps, Steps-refl, and_then, error-Steps, if-Steps, u16-Steps, u32v-Steps,
}
use v8_native_prototype.ModuleDecoder.Sections.{
  check_for_previous_section, decode_entries, decode_counted, decode_table,
}

pub check_for_previous_section-Steps :
    (sections : List Bool) (b : ℕ) (present : Bool) (d : Decoder)
    → IsReading d
    → Steps d (check_for_previous_section sections b present d)
unfolding check_for_previous_section
check_for_previous_section-Steps sections b true d v =
    if-Steps _ (Steps-refl d v) (error-Steps _ _ _ d v)
check_for_previous_section-Steps sections b false d v =
    if-Steps _ (Steps-refl d v) (error-Steps _ _ _ d v)

-- A reader whose every run is a step.
abbrev pub IsReader {ℓ} : {A : Type ℓ} → (Decoder → A × Decoder) → Type 0
IsReader read = (d : Decoder) → IsReading d → Steps d (read d).1

pub decode_entries-Steps {ℓ} :
    {A : Type ℓ} (read : Decoder → A × Decoder)
    → IsReader read
    → (n : ℕ) → IsReader (decode_entries read n)
unfolding decode_entries
decode_entries-Steps read r zero d v = Steps-refl d v
decode_entries-Steps read r (suc n) d v = elim (Bool-cases (failed d)) [
  | inl e ↦ rw e (Steps-refl d v)
  | inr e ↦ rw e (and_then v (r d v) (decode_entries-Steps read r n _))
]

pub decode_counted-Steps {ℓ} :
    {A : Type ℓ} (read : Decoder → A × Decoder) → IsReader read → IsReader (decode_counted read)
unfolding decode_counted
decode_counted-Steps read r d v = and_then v (u32v-Steps d v) (decode_entries-Steps read r _ _)

pub decode_table-Steps : (size n : ℕ) → IsReader (decode_table size n)
unfolding decode_table
decode_table-Steps size zero d v = Steps-refl d v
decode_table-Steps size (suc n) d v = elim (Bool-cases (failed d)) [
  | inl e ↦ rw e (Steps-refl d v)
  | inr e ↦ rw e (
      and_then v (u16-Steps d v) λ w. elim (Bool-cases (leb size (u16 d).0)) [
        | inl k ↦ rw k (error-Steps _ _ _ _ w)
        | inr k ↦ rw k (decode_table-Steps size n _ w)
      ])
]

-- Where a byte is left, `u8` takes it.
pub u8_advances : (d : Decoder) → IsReading d → d.pc < d.limit → (u8 d).1.pc ≡ d.pc + 1
unfolding u8
u8_advances d v h = ground arith

-- What a section keeps: as `Steps`, but the limit may come down, as it does at the end section.
pub record Advances (d d' : Decoder) : Type 0 where
  pub same_mem : d'.mem ≡ d.mem
  pub same_start : d'.start ≡ d.start
  pub same_class : d'.class ≡ d.class
  pub limit_falls : d'.limit ≤ d.limit
  pub forward : d.pc ≤ d'.pc
  pub within : d'.pc ≤ d'.limit
  pub first_error :
      ok d ≡ false
      → (d'.error_pc ≡ d.error_pc) × (d'.error_pt ≡ d.error_pt) × (d'.error_msg ≡ d.error_msg)

pub Steps-Advances : {d d' : Decoder} → Steps d d' → Advances d d'
Steps-Advances s = ground arith

pub Advances-trans : {d d' d'' : Decoder} → Advances d d' → Advances d' d'' → Advances d d''
Advances-trans s t = ground arith

pub Advances-IsReading : {d d' : Decoder} → Advances d d' → IsReading d → IsReading d'
Advances-IsReading s v = ground arith
