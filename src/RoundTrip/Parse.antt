-- ===== src/RoundTrip/Parse.antt =====
-- Readers of wasm/decoder.h and wasm/module-decoder.cc in front of bytes that the encoder wrote: what they
-- return, and that they end behind the bytes.
use v8_native_prototype.Base.{
  subst, ap₂, ℕ, ◌+◌, ◌*◌, ◌/◌, ◌%◌, ◌^◌, ◌<◌, ◌≤◌, ◌≡◌, ◌≢◌, sym, ap, ◌∙◌, arith, not, List, [],
  ◌∷◌, ◌++◌, append_assoc, none, some, length, length-append, drop, drop-past, All, if◌then◌else◌,
}
use v8_native_prototype.Leb.ReadLaws.{IsByte}
use v8_native_prototype.Leb.RoundTrip.{read-var_int}
use v8_native_prototype.Leb.Write.{var_int}
use v8_native_prototype.Encoder.Emit.{u8_bytes, u16_bytes, u32_bytes}
use v8_native_prototype.Encoder.Layout.{each_bytes}
use v8_native_prototype.Decoder.State.{Decoder, wasm_decoder, is_none}
use v8_native_prototype.Decoder.Reads.{u8, u16, u32, u32v}
use v8_native_prototype.Decoder.Bytes.{u8_lem, u16_lem, u32_lem}
use v8_native_prototype.Decoder.Steps.{IsReading}
use v8_native_prototype.Decoder.VarInt.{u32v-operand}
use v8_native_prototype.ModuleDecoder.Sections.{decode_entries, decode_counted}

-- A decoder of a module of `size` bytes that has met no error, in front of some of its bytes.
pub record At (size : ℕ) (d : Decoder) (bs rest : List ℕ) : Type 0 where
  pub reader : d.class ≢ wasm_decoder
  pub bytes : All IsByte d.mem
  pub start : d.start ≡ 0
  pub limit : d.limit ≡ size
  pub no_error : d.error_pc ≡ none
  pub stands : drop d.pc d.mem ≡ bs ++ rest
  pub fits : d.pc + length bs ≤ size

-- A decoder that has moved on.
abbrev pub move : ℕ → Decoder → Decoder
move n d = record d { pc = d.pc + n }

-- A reader that reads the bytes to a value, which may depend on where they stand, and moves behind them.
pub record Parses {ℓ} {A : Type ℓ} (size : ℕ) (f : Decoder → A × Decoder) (bs : List ℕ) (a : ℕ → A)
    : Type ℓ where
  pub run : (d : Decoder) (rest : List ℕ) → At size d bs rest → f d ≡ (a d.pc, move (length bs) d)

-- The two parts of a row of bytes.
pub At-first :
    (size : ℕ) (d : Decoder) (xs ys rest : List ℕ)
    → At size d (xs ++ ys) rest
    → At size d xs (ys ++ rest)
At-first size d xs ys rest v = record {
  reader = v.reader;
  bytes = v.bytes;
  start = v.start;
  limit = v.limit;
  no_error = v.no_error;
  stands = v.stands ∙ append_assoc xs ys rest;
  fits = omega (arith, v.fits, length-append xs ys);
}

pub At-second :
    (size : ℕ) (d : Decoder) (xs ys rest : List ℕ)
    → At size d (xs ++ ys) rest
    → At size (move (length xs) d) ys rest
At-second size d xs ys rest v = record {
  reader = v.reader;
  bytes = v.bytes;
  start = v.start;
  limit = v.limit;
  no_error = v.no_error;
  stands = drop-past d.pc d.mem xs (ys ++ rest) (v.stands ∙ append_assoc xs ys rest);
  fits = omega (arith, v.fits, length-append xs ys);
}

pub move-move : (m n : ℕ) (d : Decoder) → move n (move m d) ≡ move (m + n) d
move-move m n d = ap (λ k. record d { pc = k }) (sum m n d.pc)
  where
    sum : (m n p : ℕ) → p + m + n ≡ p + (m + n)
    sum m n p = omega arith

pub move-append :
    (xs ys : List ℕ) (d : Decoder)
    → move (length ys) (move (length xs) d) ≡ move (length (xs ++ ys)) d
move-append xs ys d =
    move-move (length xs) (length ys) d ∙ ap (λ n. move n d) (sym (length-append xs ys))

-- One reader after another, where the second may depend on what the first has read.
pub Parses-then {ℓ κ ι} :
    {A : Type ℓ} {B : Type κ} {C : Type ι} (size : ℕ) (f : Decoder → A × Decoder)
    (g : A → Decoder → B × Decoder) (pair : A → B → C) (xs ys : List ℕ) (a : ℕ → A) (b : A → ℕ → B)
    → Parses size f xs a
    → ((p : ℕ) → Parses size (g (a p)) ys (b (a p)))
    → Parses size
        (λ d. let (x, d₁) = f d in let (y, d₂) = g x d₁ in (pair x y, d₂))
        (xs ++ ys)
        (λ p. pair (a p) (b (a p) (p + length xs)))
Parses-then size f g pair xs ys a b u w = record {
  run = λ d rest v.
      let first = u.run d (ys ++ rest) (At-first size d xs ys rest v) in
      let second = (w d.pc).run (move (length xs) d) rest (At-second size d xs ys rest v) in
      rw (first, second)
        (ap (λ e. (pair (a d.pc) (b (a d.pc) (d.pc + length xs)), e)) (move-append xs ys d));
}

byte_small : (x : ℕ) → x % 256 < 256
byte_small x = omega arith

pub u8-Parses : (size x : ℕ) → Parses size u8 (u8_bytes x) (λ _. x % 256)
unfolding u8_bytes
u8-Parses size x = record {
  run = λ d rest v. u8_lem d (x % 256) rest (record {
    stands = v.stands;
    above = omega (arith, v.start);
    fits = omega (arith, v.fits, v.limit);
  });
}

pub u16-Parses : (size x : ℕ) → Parses size u16 (u16_bytes x) (λ _. x % 2 ^ 16)
unfolding u16_bytes
u16-Parses size x = record {
  run = λ d rest v.
      u16_lem d (x % 256) (x / 256 % 256) rest (byte_small x) (byte_small (x / 256)) (record {
        stands = v.stands;
        above = omega (arith, v.start);
        fits = omega (arith, v.fits, v.limit);
      })
      ∙ ap (λ n. (n, move 2 d)) (join x);
}
  where
    join : (x : ℕ) → x % 256 + x / 256 % 256 * 256 ≡ x % 2 ^ 16
    join x = omega arith

pub u32-Parses : (size x : ℕ) → Parses size u32 (u32_bytes x) (λ _. x % 2 ^ 32)
unfolding u32_bytes
u32-Parses size x = record {
  run = λ d rest v.
      u32_lem d (x % 256) (x / 256 % 256) (x / 256 / 256 % 256) (x / 256 / 256 / 256 % 256) rest
        (byte_small x) (byte_small (x / 256)) (byte_small (x / 256 / 256))
        (byte_small (x / 256 / 256 / 256))
        (record {
          stands = v.stands;
          above = omega (arith, v.start);
          fits = omega (arith, v.fits, v.limit);
        })
      ∙ ap (λ n. (n, move 4 d)) (join x);
}
  where
    join :
        (x : ℕ)
        → x % 256
            + x / 256 % 256 * 256
            + x / 256 / 256 % 256 * 256 * 256
            + x / 256 / 256 / 256 % 256 * 256 * 256 * 256
          ≡ x % 2 ^ 32
    join x = omega arith

-- A reader of a number is a pair of the number and its length.
pub u32v-Parses :
    (size n : ℕ) → n < 2 ^ 32 → Parses size u32v (var_int n) (λ _. (n, some (length (var_int n))))
u32v-Parses size n small = record {
  run = λ d rest v.
      let (read, _, _) =
        read-var_int d.mem d.pc d.limit n rest v.bytes small v.stands
          (omega (arith, v.fits, v.limit)) in
      let reading : IsReading d = record {
        reader = v.reader;
        above = omega (arith, v.start);
        below = omega (arith, v.fits, v.limit);
      } in
      u32v-operand d reading (ap (λ r. r.code) read)
      ∙ ap (λ r. ((r.value, some r.len), move r.len d)) read;
}

-- The values of a row of entries, each behind the one before.
unfoldable pub each_value {ℓ κ} :
    {A : Type ℓ} {B : Type κ} → (A → List ℕ) → (A → ℕ → B) → List A → ℕ → List B
each_value g h [] p = []
each_value g h (x ∷ xs) p = h x p ∷ each_value g h xs (p + length (g x))

pub decode_entries-Parses {ℓ κ} :
    {A : Type ℓ} {B : Type κ} (size : ℕ) (read : Decoder → B × Decoder) (g : A → List ℕ)
    (h : A → ℕ → B) (xs : List A)
    → All (λ x. Parses size read (g x) (h x)) xs
    → Parses size (decode_entries read (length xs)) (each_bytes g xs) (each_value g h xs)
unfolding decode_entries each_bytes each_value
decode_entries-Parses size read g h [] ps = record {
  run = λ d rest v. ap (λ n. ([], record d { pc = n })) (stay d.pc);
}
  where
    stay : (n : ℕ) → n ≡ n + 0
    stay n = omega arith
decode_entries-Parses size read g h (x ∷ xs) ps = record {
  run = λ d rest v.
      let first =
        ps.0.run d (each_bytes g xs ++ rest) (At-first size d (g x) (each_bytes g xs) rest v) in
      let others =
        (decode_entries-Parses size read g h xs ps.1).run (move (length (g x)) d) rest
          (At-second size d (g x) (each_bytes g xs) rest v) in
      let found = h x d.pc ∷ each_value g h xs (d.pc + length (g x)) in
      ap
        (λ b. if b then ([], d) else (
          (read d).0 ∷ (decode_entries read (length xs) (read d).1).0,
          (decode_entries read (length xs) (read d).1).1,
        ))
        (ap (λ e. not (is_none e)) v.no_error)
      ∙ rw (first, others) (ap (λ e. (found, e)) (move-append (g x) (each_bytes g xs) d));
}

-- A count and its entries.
pub decode_counted-Parses {ℓ κ} :
    {A : Type ℓ} {B : Type κ} (size : ℕ) (read : Decoder → B × Decoder) (g : A → List ℕ)
    (h : A → ℕ → B) (xs : List A)
    → length xs < 2 ^ 32
    → All (λ x. Parses size read (g x) (h x)) xs
    → Parses size
        (decode_counted read)
        (var_int (length xs) ++ each_bytes g xs)
        (λ p. each_value g h xs (p + length (var_int (length xs))))
unfolding decode_counted
decode_counted-Parses size read g h xs small ps =
    Parses-then size u32v (λ count. decode_entries read count.0) (λ _ found. found)
      (var_int (length xs)) (each_bytes g xs)
      (λ _. (length xs, some (length (var_int (length xs))))) (λ _. each_value g h xs)
      (u32v-Parses size (length xs) small) (λ _. decode_entries-Parses size read g h xs ps)

-- The same bytes and the same values.
pub Parses-cast {ℓ} :
    {A : Type ℓ} (size : ℕ) (f : Decoder → A × Decoder) {xs ys : List ℕ} {a b : ℕ → A}
    → xs ≡ ys
    → ((p : ℕ) → a p ≡ b p)
    → Parses size f xs a
    → Parses size f ys b
Parses-cast size f {xs} {ys} {a} {b} e h u = record {
  run = λ d rest v.
      let w = u.run d rest (subst (λ zs. At size d zs rest) (sym e) v) in
      w ∙ ap₂ (λ x n. (x, move n d)) (h d.pc) (ap length e);
}
