-- ===== src/ModuleDecoder/EntryLists.antt =====
-- The entries of a section that DecodeModule of wasm/module-decoder.cc reads without an error are
-- valid.
use v8_native_prototype.Base.{
  ℕ, zero, suc, ◌≤◌, ◌<◌, ◌≡◌, true, Bool-cases, inl, inr, arith, All, leb,
}
use v8_native_prototype.Decoder.State.{Decoder, ok, failed}
use v8_native_prototype.Decoder.Reads.{u16}
use v8_native_prototype.Decoder.Steps.{
  IsReading, Steps, Steps-IsReading, ok_before, u16-Steps, u32v-Steps,
}
use v8_native_prototype.ModuleDecoder.Entries.{span}
use v8_native_prototype.ModuleDecoder.Sections.{decode_entries, decode_counted, decode_table}
use v8_native_prototype.ModuleDecoder.EntrySteps.{IsReader, decode_entries-Steps}

-- The span of a decoder does not change by a step.
pub Steps-span : {d d' : Decoder} → Steps d d' → span d' ≡ span d
Steps-span s = ground arith

module _ {ℓ} {A : Type ℓ} (read : Decoder → A × Decoder) (reader : IsReader read) (size : ℕ)
    (P : A → Type 0)
    (valid : (d : Decoder)
      → IsReading d
      → span d ≤ size
      → ok (read d).1 ≡ true
      → P (read d).0) where
  decode_entries_valid :
      (n : ℕ) (d : Decoder)
      → IsReading d
      → span d ≤ size
      → ok (decode_entries read n d).1 ≡ true
      → All P (decode_entries read n d).0
  unfolding decode_entries
  decode_entries_valid zero d v k = λ h. tt
  decode_entries_valid (suc n) d v k = elim (Bool-cases (failed d)) [
    | inl e ↦ rw e (λ h. tt)
    | inr e ↦ rw e λ h.
        let s = reader d v in
        let w = Steps-IsReading s v in
        (
          valid d v k (ok_before (decode_entries-Steps read reader n _ w) h),
          decode_entries_valid n _ w (omega (arith, Steps-span s, k)) h,
        )
  ]

  pub decode_counted_valid :
      (d : Decoder)
      → IsReading d
      → span d ≤ size
      → ok (decode_counted read d).1 ≡ true
      → All P (decode_counted read d).0
  unfolding decode_counted
  decode_counted_valid d v k =
      let s = u32v-Steps d v in
      decode_entries_valid _ _ (Steps-IsReading s v) (omega (arith, Steps-span s, k))

pub decode_table_valid :
    (size n : ℕ) (d : Decoder)
    → IsReading d
    → ok (decode_table size n d).1 ≡ true
    → All (λ i. i < size) (decode_table size n d).0
unfolding decode_table
decode_table_valid size zero d v = λ h. tt
decode_table_valid size (suc n) d v = elim (Bool-cases (failed d)) [
  | inl e ↦ rw e (λ h. tt)
  | inr e ↦ rw e (elim (Bool-cases (leb size (u16 d).0)) [
    | inl k ↦ rw k (λ h. tt)
    | inr k ↦ rw k (λ h.
        (ground (arith, k), decode_table_valid size n _ (Steps-IsReading (u16-Steps d v) v) h))
  ])
]
