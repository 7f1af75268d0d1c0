-- ===== src/RoundTrip/Rounds.antt =====
-- Rounds of the section loop of DecodeModule (wasm/module-decoder.cc) in front of the sections that
-- WriteTo (wasm/encoder.cc) wrote.
use v8_native_prototype.Base.{
  ℕ, zero, suc, ◌+◌, ◌%◌, ◌<◌, ◌≤◌, ◌≡◌, refl, ap, subst, ◌∙◌, arith, Bool, true, false, ◌||◌, List,
  [], ◌∷◌, ◌++◌, length, get_or, set, ltb, ltb→lt, leb, lt→ltb, if◌then◌else◌,
}
use v8_native_prototype.Leb.Write.{var_int}
use v8_native_prototype.Decoder.State.{Decoder}
use v8_native_prototype.WasmModule.Types.{WasmModule}
use v8_native_prototype.ModuleDecoder.Sections.{
  Verifier, to_section, ModuleState, check_for_previous_section, max_module_section_code,
}
use v8_native_prototype.ModuleDecoder.Module.{run_section, decode_section, decode_sections}
use v8_native_prototype.Encoder.Emit.{u8_bytes}
use v8_native_prototype.Encoder.Layout.{section_bytes}
use v8_native_prototype.RoundTrip.Parse.{At, At-first, At-second, move, move-append, u8-Parses}

module _ (verify : Verifier) (asm_js : Bool) where
  -- The loop goes from one state to another, in no more rounds than bytes that it reads.
  pub record Reaches (s s' : ModuleState) : Type 0 where
    pub rounds : ℕ
    pub steps :
        (fuel : ℕ)
        → decode_sections verify asm_js false (rounds + fuel) s
          ≡ decode_sections verify asm_js false fuel s'
    pub pays : s.d.pc + rounds ≤ s'.d.pc

  no_rounds : (n : ℕ) → 0 + n ≡ n
  no_rounds n = omega arith

  pub Reaches-refl : (s : ModuleState) → Reaches s s
  Reaches-refl s = record {
    rounds = 0;
    steps = λ fuel. ap (λ n. decode_sections verify asm_js false n s) (no_rounds fuel);
    pays = omega arith;
  }

  more_rounds : (m n fuel : ℕ) → m + n + fuel ≡ m + (n + fuel)
  more_rounds m n fuel = omega arith

  pub Reaches-trans : {s t u : ModuleState} → Reaches s t → Reaches t u → Reaches s u
  Reaches-trans {s} {t} {u} a b = record {
    rounds = a.rounds + b.rounds;
    steps = λ fuel.
        ap (λ n. decode_sections verify asm_js false n s) (more_rounds a.rounds b.rounds fuel)
        ∙ a.steps (b.rounds + fuel)
        ∙ b.steps fuel;
    pays = omega (arith, a.pays, b.pays);
  }

  one_round : (fuel : ℕ) → 1 + fuel ≡ suc fuel
  one_round fuel = omega arith

  -- One round.
  pub Reaches-round :
      (s s' : ModuleState)
      → s.d.pc < s.d.limit
      → decode_section verify asm_js false s ≡ s'
      → s.d.pc + 1 ≤ s'.d.pc
      → Reaches s s'
  unfolding decode_sections
  Reaches-round s s' more e pays = record {
    rounds = 1;
    steps = λ fuel.
        ap (λ n. decode_sections verify asm_js false n s) (one_round fuel)
        ∙ rw (lt→ltb s.d.pc s.d.limit more, e) refl;
    pays = pays;
  }

  or_true : (b : Bool) → b || true ≡ true
  or_true true = refl
  or_true false = refl

  same_code : (code : ℕ) → code < 6 → code % 256 ≡ code
  same_code code h = omega arith

  -- A round in front of a section that has not been seen.
  pub decode_section-run :
      (size code : ℕ) (s : ModuleState) (content rest : List ℕ)
      → code < 6
      → get_or s.sections code false ≡ false
      → At size s.d (u8_bytes code ++ content) rest
      → decode_section verify asm_js false s
        ≡ run_section verify asm_js false
            (to_section code)
            code
            (record s { d = move 1 s.d; sections = set s.sections code true })
  unfolding decode_section check_for_previous_section u8_bytes
  decode_section-run size code s content rest small fresh v =
      let first =
        (u8-Parses size code).run s.d (content ++ rest)
          (At-first size s.d (u8_bytes code) content rest v) in
      rw
        (
          first,
          same_code code small,
          lt→ltb code 6 small,
          fresh,
          or_true (leb max_module_section_code code),
        )
        refl

  none_left : (n : ℕ) → ltb 0 n ≡ false → n ≡ 0
  none_left n h = ground (arith, h)

  stay : (d : Decoder) → d ≡ move 0 d
  stay d = ap (λ n. record d { pc = n }) (plus_zero d.pc)
    where
      plus_zero : (n : ℕ) → n ≡ n + 0
      plus_zero n = omega arith

  set_unset : (flags : List Bool) (i : ℕ) → get_or flags i false ≡ false → flags ≡ set flags i false
  set_unset [] i h = refl
  set_unset (x ∷ flags) zero h = ap (λ b. b ∷ flags) h
  set_unset (x ∷ flags) (suc i) h = ap (λ xs. x ∷ xs) (set_unset flags i h)

  same_state :
      (s : ModuleState) (d : Decoder) (m : WasmModule) (flags : List Bool)
      → s.d ≡ d
      → s.wasm_module ≡ m
      → s.sections ≡ flags
      → s ≡ record s { d = d; wasm_module = m; sections = flags }
  same_state s d m flags e f g = rw (← e, ← f, ← g) refl

  counted-Reaches :
      (size code n : ℕ) (entries rest : List ℕ) (s : ModuleState) (m : WasmModule)
      → code < 6
      → get_or s.sections code false ≡ false
      → (At size (move 1 s.d) (var_int n ++ entries) rest
          → run_section verify asm_js false
              (to_section code)
              code
              (record s { d = move 1 s.d; sections = set s.sections code true })
            ≡ record s {
              d = move (length (var_int n ++ entries)) (move 1 s.d);
              wasm_module = m;
              sections = set s.sections code true;
            })
      → At size s.d ((u8_bytes code ++ var_int n) ++ entries) rest
      → Reaches s (record s {
        d = move (length ((u8_bytes code ++ var_int n) ++ entries)) s.d;
        wasm_module = m;
        sections = set s.sections code true;
      })
  unfolding u8_bytes
  counted-Reaches size code n entries rest s m small fresh runs v =
      let content = var_int n ++ entries in
      Reaches-round s _ (omega (arith, v.fits, v.limit))
        (decode_section-run size code s content rest small fresh v
          ∙ runs (At-second size s.d (u8_bytes code) content rest v)
          ∙ ap (λ d. record s { d = d; wasm_module = m; sections = set s.sections code true })
              (move-append (u8_bytes code) content s.d))
        (omega arith)

  -- A section of a count and n entries, none where n is 0: the loop goes behind it, to a state whose
  -- module has what the section says and whose flag for the section is set.
  pub section-Reaches :
      (size code n : ℕ) (entries rest : List ℕ) (s : ModuleState) (f : ℕ → WasmModule)
      → code < 6
      → get_or s.sections code false ≡ false
      → (n ≡ 0 → s.wasm_module ≡ f s.d.pc)
      → (0 < n
          → At size (move 1 s.d) (var_int n ++ entries) rest
          → run_section verify asm_js false
              (to_section code)
              code
              (record s { d = move 1 s.d; sections = set s.sections code true })
            ≡ record s {
              d = move (length (var_int n ++ entries)) (move 1 s.d);
              wasm_module = f s.d.pc;
              sections = set s.sections code true;
            })
      → At size s.d (section_bytes code n entries) rest
      → Reaches s (record s {
        d = move (length (section_bytes code n entries)) s.d;
        wasm_module = f s.d.pc;
        sections = set s.sections code (ltb 0 n);
      })
  unfolding section_bytes
  section-Reaches size code n entries rest s f small fresh same_module runs v =
      counted (ltb 0 n) refl v
    where
      counted :
          (b : Bool)
          → ltb 0 n ≡ b
          → At size s.d (if b then (u8_bytes code ++ var_int n) ++ entries else []) rest
          → Reaches s (record s {
            d = move (length (if b then (u8_bytes code ++ var_int n) ++ entries else [])) s.d;
            wasm_module = f s.d.pc;
            sections = set s.sections code b;
          })
      counted true e w =
          counted-Reaches size code n entries rest s (f s.d.pc) small fresh (runs (ltb→lt 0 n e)) w
      counted false e w =
          let n_zero = none_left n e in
          subst (Reaches s)
            (same_state s _ _ _ (stay s.d) (same_module n_zero) (set_unset s.sections code fresh))
            (Reaches-refl s)
