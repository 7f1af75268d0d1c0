-- ===== src/Encoder/Filled.antt =====
-- Writing at the two pointers of WasmModuleWriter::WriteTo (wasm/encoder.cc), as bytes added to two rows.
use v8_native_prototype.Base.{
  ℕ, zero, suc, ◌+◌, ◌≡◌, refl, sym, ap, subst, ◌∙◌, arith, Bool, true, false, if◌then◌else◌, List,
  [], ◌∷◌, ◌++◌, append-nil, append_assoc, length, length-append, length-replicate, set, replicate,
}
use v8_native_prototype.Encoder.Emit.{Output, store, emit_bytes, emit_body}

abbrev pub zeros : ℕ → List ℕ
zeros n = replicate n 0

-- A buffer with H at its start, then a gap of n zeros, then B and m zeros more; the header pointer stands
-- behind H and the body pointer behind B.
pub record Filled (o : Output) (H : List ℕ) (n : ℕ) (B : List ℕ) (m : ℕ) : Type 0 where
  pub buffer : o.buffer ≡ H ++ (zeros n ++ (B ++ zeros m))
  pub header : o.header ≡ length H
  pub body : o.body ≡ length H + n + length B

set-append : (xs ys : List ℕ) (y v : ℕ) → set (xs ++ (y ∷ ys)) (length xs) v ≡ xs ++ (v ∷ ys)
set-append [] ys y v = refl
set-append (x ∷ xs) ys y v = ap (λ zs. x ∷ zs) (set-append xs ys y v)

no_room : (n : ℕ) → 0 + n ≡ n
no_room n = omega arith

suc_sum : (m n : ℕ) → suc m + n ≡ suc (m + n)
suc_sum m n = omega arith

zeros-suc : (m n : ℕ) → zeros (suc m + n) ≡ 0 ∷ zeros (m + n)
zeros-suc m n = ap zeros (suc_sum m n)

pub replicate-add : (m n : ℕ) → zeros (m + n) ≡ zeros m ++ zeros n
replicate-add zero n = ap zeros (no_room n)
replicate-add (suc m) n = zeros-suc m n ∙ ap (λ xs. 0 ∷ xs) (replicate-add m n)

store-append :
    (bs xs ys : List ℕ) (p : ℕ)
    → p ≡ length xs
    → store (xs ++ (zeros (length bs) ++ ys)) p bs ≡ (xs ++ bs) ++ ys
unfolding store
store-append [] xs ys p e = ap (λ zs. zs ++ ys) (sym (append-nil xs))
store-append (b ∷ bs) xs ys p e =
    ap (λ mem. store mem (p + 1) bs)
      (ap (λ q. set (xs ++ (0 ∷ zeros (length bs) ++ ys)) q b) e
        ∙ set-append xs (zeros (length bs) ++ ys) 0 b
        ∙ sym (append_assoc xs (b ∷ []) (zeros (length bs) ++ ys)))
    ∙ store-append bs (xs ++ (b ∷ [])) ys (p + 1) (omega (arith, e, length-append xs (b ∷ [])))
    ∙ ap (λ zs. zs ++ ys) (append_assoc xs (b ∷ []) bs)

pub emit_bytes-Filled :
    (bs : List ℕ) (o : Output) (H : List ℕ) (n : ℕ) (B : List ℕ) (m : ℕ)
    → Filled o H (length bs + n) B m
    → Filled (emit_bytes bs o) (H ++ bs) n B m
unfolding emit_bytes
emit_bytes-Filled bs o H n B m v = record {
  buffer =
      ap (λ mem. store mem o.header bs)
        (v.buffer
          ∙ ap (λ gap. H ++ (gap ++ (B ++ zeros m))) (replicate-add (length bs) n)
          ∙ ap (λ xs. H ++ xs) (append_assoc (zeros (length bs)) (zeros n) (B ++ zeros m)))
      ∙ store-append bs H (zeros n ++ (B ++ zeros m)) o.header v.header;
  header = omega (arith, v.header, length-append H bs);
  body = omega (arith, v.body, length-append H bs);
}

regroup : (xs ys zs ws : List ℕ) → xs ++ (ys ++ (zs ++ ws)) ≡ (xs ++ (ys ++ zs)) ++ ws
regroup xs ys zs ws =
    ap (λ us. xs ++ us) (sym (append_assoc ys zs ws)) ∙ sym (append_assoc xs (ys ++ zs) ws)

pub emit_body-Filled :
    (bs : List ℕ) (o : Output) (H : List ℕ) (n : ℕ) (B : List ℕ) (m : ℕ)
    → Filled o H n B (length bs + m)
    → Filled (emit_body bs o) H n (B ++ bs) m
unfolding emit_body
emit_body-Filled bs o H n B m v = record {
  buffer =
      ap (λ mem. store mem o.body bs)
        (v.buffer
          ∙ ap (λ gap. H ++ (zeros n ++ (B ++ gap))) (replicate-add (length bs) m)
          ∙ regroup H (zeros n) B (zeros (length bs) ++ zeros m))
      ∙ store-append bs (H ++ (zeros n ++ B)) (zeros m) o.body (
          omega (
            arith,
            v.body,
            length-append H (zeros n ++ B),
            length-append (zeros n) B,
            length-replicate {A = ℕ} n 0,
          ))
      ∙ append_assoc (H ++ (zeros n ++ B)) bs (zeros m)
      ∙ sym (regroup H (zeros n) B (bs ++ zeros m))
      ∙ ap (λ xs. H ++ (zeros n ++ xs)) (sym (append_assoc B bs (zeros m)));
  header = v.header;
  body = omega (arith, v.body, length-append B bs);
}

pub Filled-cast :
    (o : Output) {H H' : List ℕ} {n n' : ℕ} {B B' : List ℕ} {m m' : ℕ}
    → H ≡ H'
    → n ≡ n'
    → B ≡ B'
    → m ≡ m'
    → Filled o H n B m
    → Filled o H' n' B' m'
Filled-cast o {H} {H'} {n} {n'} {B} {B'} {m} {m'} e f g h v = record {
  buffer = rw (← e, ← f, ← g, ← h) v.buffer;
  header = rw (← e) v.header;
  body = rw (← e, ← f, ← g) v.body;
}

-- A write at the header pointer that adds a row of bytes, where there is room.
pub record Writes (f : Output → Output) (bs : List ℕ) : Type 0 where
  pub run :
      (o : Output) (H : List ℕ) (n : ℕ) (B : List ℕ) (m : ℕ)
      → Filled o H (length bs + n) B m
      → Filled (f o) (H ++ bs) n B m

pub Writes-emit : (bs : List ℕ) → Writes (emit_bytes bs) bs
Writes-emit bs = record { run = emit_bytes-Filled bs }

pub Writes-none : Writes (λ o. o) []
Writes-none = record {
  run = λ o H n B m v. Filled-cast o (sym (append-nil H)) (no_room n) refl refl v;
}

room_of_both : (xs bs : List ℕ) (n : ℕ) → length (xs ++ bs) + n ≡ length xs + (length bs + n)
room_of_both xs bs n = omega (arith, length-append xs bs)

-- One write after another.
pub Writes-then :
    {f g : Output → Output} {xs bs : List ℕ}
    → Writes f xs
    → Writes g bs
    → Writes (λ o. g (f o)) (xs ++ bs)
Writes-then {f} {g} {xs} {bs} u w = record {
  run = λ o H n B m v.
      subst (λ zs. Filled (g (f o)) zs n B m) (append_assoc H xs bs)
        (w.run (f o) (H ++ xs) n B m
          (u.run o H (length bs + n) B m (subst (λ k. Filled o H k B m) (room_of_both xs bs n) v)));
}

-- A write under a test.
pub Writes-if :
    {f : Output → Output} {xs : List ℕ} (b : Bool)
    → Writes f xs
    → Writes (λ o. if b then f o else o) (if b then xs else [])
Writes-if true u = u
Writes-if false u = Writes-none
