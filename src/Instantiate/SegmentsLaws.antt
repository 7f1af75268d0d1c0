-- ===== src/Instantiate/SegmentsLaws.antt =====
-- What LoadDataSegments (wasm/wasm-module.cc) leaves in the linear memory.
use mathlib.Core.Option.{some-injective}
use v8_native_prototype.Base.{
  ℕ, zero, suc, ◌+◌, ◌-◌, ◌^◌, ◌<◌, ◌≤◌, ◌≡◌, refl, sym, ap, subst, ◌∙◌, arith, Bool, true, false,
  Bool-cases, bind-some, bind-inv, ◌↔◌, inl, inr, ◌&&◌, List, [], ◌∷◌, some, length, get_or, set,
  ltb, leb, if◌then◌else◌,
}
use v8_native_prototype.WasmModule.Types.{WasmDataSegment, WasmModule}
use v8_native_prototype.Encoder.Emit.{store}
use v8_native_prototype.Instantiate.Segments.{
  bytes_at, load_segment, load_segments, load_data_segments,
}

-- The byte at an address of the linear memory after the segments have been loaded in order: that of the
-- last segment that covers the address, and the byte that was there if none does.
unfoldable pub loaded_byte : List ℕ → ℕ → List WasmDataSegment → ℕ → ℕ → ℕ
loaded_byte bytes module_start [] p before = before
loaded_byte bytes module_start (s ∷ ss) p before =
    let covered = s.init && leb s.dest_addr p && ltb p (s.dest_addr + s.source_size) in
    let byte = get_or bytes (module_start + s.source_offset + (p - s.dest_addr)) 0 in
    loaded_byte bytes module_start ss p (if covered then byte else before)

-- Whether each segment that is to be loaded passes the checks, without wrap-around.
unfoldable pub InMemory : ℕ → List WasmDataSegment → Type 0
InMemory size [] = Unit
InMemory size (s ∷ ss) =
    (s.init ≡ true → (s.dest_addr < size) × (s.dest_addr + s.source_size ≤ size)) × InMemory size ss

length-set : (xs : List ℕ) (i v : ℕ) → length (set xs i v) ≡ length xs
length-set [] i v = refl
length-set (x ∷ xs) zero v = refl
length-set (x ∷ xs) (suc i) v = ap suc (length-set xs i v)

get_or-set :
    (xs : List ℕ) (i v p : ℕ)
    → i < length xs
    → get_or (set xs i v) p 0 ≡ (if leb i p && leb p i then v else get_or xs p 0)
get_or-set [] i v p h = absurd (omega arith)
get_or-set (x ∷ xs) zero v zero h = refl
get_or-set (x ∷ xs) zero v (suc p) h = ground arith
get_or-set (x ∷ xs) (suc i) v zero h = ground arith
get_or-set (x ∷ xs) (suc i) v (suc p) h = ground (arith, get_or-set xs i v p (omega arith))

length-store : (bs mem : List ℕ) (p : ℕ) → length (store mem p bs) ≡ length mem
unfolding store
length-store [] mem p = refl
length-store (b ∷ bs) mem p = length-store bs (set mem p b) (p + 1) ∙ length-set mem p b

-- A byte behind n bytes that were copied from `src` to `dest`.
get_or-copy :
    (bytes mem : List ℕ) (src dest n p : ℕ)
    → dest + n ≤ length mem
    → get_or (store mem dest (bytes_at bytes src n)) p 0 ≡ (
        if leb dest p && ltb p (dest + n)
        then get_or bytes (src + (p - dest)) 0
        else get_or mem p 0)
unfolding store bytes_at
get_or-copy bytes mem src dest zero p h = ground arith
get_or-copy bytes mem src dest (suc n) p h =
    let b = get_or bytes src 0 in
    ground (
      arith,
      get_or-copy bytes (set mem dest b) (src + 1) (dest + 1) n p
          (omega (arith, length-set mem dest b)),
      get_or-set mem dest b p (omega arith),
    )

load_segment_lem :
    (bytes : List ℕ) (module_start : ℕ) (s : WasmDataSegment) (mem : List ℕ) (p : ℕ)
    → length mem ≤ 2 ^ 31
    → s.dest_addr < length mem
    → s.dest_addr + s.source_size ≤ length mem
    → (mem' : List ℕ) × (load_segment bytes module_start s mem ≡ some mem')
      × (length mem' ≡ length mem)
      × (get_or mem' p 0 ≡ (
          if leb s.dest_addr p && ltb p (s.dest_addr + s.source_size)
          then get_or bytes (module_start + s.source_offset + (p - s.dest_addr)) 0
          else get_or mem p 0))
unfolding load_segment
load_segment_lem bytes module_start s mem p big low high =
    let copied = bytes_at bytes (module_start + s.source_offset) s.source_size in
    (
      store mem s.dest_addr copied,
      ground arith,
      length-store copied mem s.dest_addr,
      get_or-copy bytes mem (module_start + s.source_offset) s.dest_addr s.source_size p high,
    )

load_segments_lem :
    (bytes : List ℕ) (module_start : ℕ) (ss : List WasmDataSegment) (mem : List ℕ) (p : ℕ)
    → length mem ≤ 2 ^ 31
    → InMemory (length mem) ss
    → (mem' : List ℕ) × (load_segments bytes module_start ss mem ≡ some mem')
      × (length mem' ≡ length mem)
      × (get_or mem' p 0 ≡ loaded_byte bytes module_start ss p (get_or mem p 0))
unfolding load_segments loaded_byte InMemory
load_segments_lem bytes module_start [] mem p big h = (mem, refl, refl, refl)
load_segments_lem bytes module_start (s ∷ ss) mem p big h = elim (Bool-cases s.init) [
  | inl e ↦
      let (mem₁, e₁, l₁, b₁) =
        load_segment_lem bytes module_start s mem p big (h.0 e).0 (h.0 e).1 in
      let (mem₂, e₂, l₂, b₂) =
        load_segments_lem bytes module_start ss mem₁ p (omega (arith, l₁, big))
          (subst (λ n. InMemory n ss) (sym l₁) h.1) in
      (
        mem₂,
        bind-some _ mem₁ _
              (ap (λ b. if b then load_segment bytes module_start s mem else some mem) e ∙ e₁)
            ∙ e₂,
        l₂ ∙ l₁,
        b₂ ∙ ap (loaded_byte bytes module_start ss p) (b₁ ∙ sym (covered_by s p mem e)),
      )
  | inr e ↦
      let (mem₂, e₂, l₂, b₂) = load_segments_lem bytes module_start ss mem p big h.1 in
      (
        mem₂,
        bind-some _ mem _
              (ap (λ b. if b then load_segment bytes module_start s mem else some mem) e)
            ∙ e₂,
        l₂,
        b₂ ∙ ap (loaded_byte bytes module_start ss p) (sym (left_out s p mem e)),
      )
]
  where
    covered_by :
        (s : WasmDataSegment) (p : ℕ) (mem : List ℕ)
        → s.init ≡ true
        → (if s.init && leb s.dest_addr p && ltb p (s.dest_addr + s.source_size)
            then get_or bytes (module_start + s.source_offset + (p - s.dest_addr)) 0
            else get_or mem p 0)
          ≡ (if leb s.dest_addr p && ltb p (s.dest_addr + s.source_size)
              then get_or bytes (module_start + s.source_offset + (p - s.dest_addr)) 0
              else get_or mem p 0)
    covered_by s p mem e = ground (arith, e)

    left_out :
        (s : WasmDataSegment) (p : ℕ) (mem : List ℕ)
        → s.init ≡ false
        → (if s.init && leb s.dest_addr p && ltb p (s.dest_addr + s.source_size)
            then get_or bytes (module_start + s.source_offset + (p - s.dest_addr)) 0
            else get_or mem p 0)
          ≡ get_or mem p 0
    left_out s p mem e = ground (arith, e)

-- Where every segment with `init` begins within the linear memory and ends within it, and the memory has
-- at most 2 GB, LoadDataSegments passes all its checks, keeps the size of the memory, and leaves at
-- every address the byte of the last segment that covers the address, or the byte that was there.
pub load_data_segments_lem :
    (bytes : List ℕ) (m : WasmModule) (mem : List ℕ) (p : ℕ)
    → length mem ≤ 2 ^ 31
    → InMemory (length mem) m.data_segments
    → (mem' : List ℕ) × (load_data_segments bytes m mem ≡ some mem')
      × (length mem' ≡ length mem)
      × (get_or mem' p 0 ≡ loaded_byte bytes m.module_start m.data_segments p (get_or mem p 0))
unfolding load_data_segments
load_data_segments_lem bytes m mem p big h =
    load_segments_lem bytes m.module_start m.data_segments mem p big h

-- What the checks have let through.
load_segment_checks :
    (bytes : List ℕ) (module_start : ℕ) (s : WasmDataSegment) (mem mem' : List ℕ)
    → length mem ≤ 2 ^ 31
    → load_segment bytes module_start s mem ≡ some mem'
    → (s.dest_addr < length mem)
      × (s.dest_addr + s.source_size ≤ length mem)
      × (length mem' ≡ length mem)
unfolding load_segment
load_segment_checks bytes module_start s mem mem' big h =
    let copied = bytes_at bytes (module_start + s.source_offset) s.source_size in
    ground (arith, h, length-store copied mem s.dest_addr)

load_segments_checks :
    (bytes : List ℕ) (module_start : ℕ) (ss : List WasmDataSegment) (mem mem' : List ℕ)
    → length mem ≤ 2 ^ 31
    → load_segments bytes module_start ss mem ≡ some mem'
    → InMemory (length mem) ss
unfolding load_segments InMemory
load_segments_checks bytes module_start [] mem mem' big h = _
load_segments_checks bytes module_start (s ∷ ss) mem mem' big h =
    let (mem₁, step, rest) = bind-inv _ mem' _ h in
    let tested = λ (b : Bool). if b then load_segment bytes module_start s mem else some mem in
    elim (Bool-cases s.init) [
      | inl e ↦
          let (low, high, l) =
            load_segment_checks bytes module_start s mem mem₁ big (ap tested (sym e) ∙ step) in
          let inner =
            load_segments_checks bytes module_start ss mem₁ mem' (omega (arith, l, big)) rest in
          ((λ _. (low, high)), subst (λ n. InMemory n ss) l inner)
      | inr e ↦
          let same = some-injective mem mem₁ (ap tested (sym e) ∙ step) in
          let inner =
            load_segments_checks bytes module_start ss mem mem' big
              (ap (load_segments bytes module_start ss) same ∙ rest) in
          ((λ k. absurd (true≢false (sym k ∙ e))), inner)
    ]
  where
    true≢false : ¬ (true ≡ false)
    true≢false k = cc

-- In a memory of at most 2 GB, LoadDataSegments passes its checks exactly where every segment with `init`
-- begins within the memory and ends within it.
pub load_data_segments-InMemory :
    (bytes : List ℕ) (m : WasmModule) (mem : List ℕ)
    → length mem ≤ 2 ^ 31
    → ((mem' : List ℕ) × (load_data_segments bytes m mem ≡ some mem'))
      ↔ InMemory (length mem) m.data_segments
unfolding load_data_segments
load_data_segments-InMemory bytes m mem big = (
  λ (mem', h). load_segments_checks bytes m.module_start m.data_segments mem mem' big h,
  λ h.
      let (mem', e, _, _) = load_segments_lem bytes m.module_start m.data_segments mem 0 big h in
      (mem', e),
)
