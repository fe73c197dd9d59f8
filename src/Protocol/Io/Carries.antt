-- ===== src/Protocol/Io/Carries.antt =====
-- Runs of `put_…` calls and the runs of `get_…` calls that read them back, or stop where the bytes do.
pub mod Words
use basis_rust_server.Common.{
  ℕ, zero, suc, ◌+◌, ◌-◌, ◌≤◌, ◌<◌, ◌≡◌, refl, sym, ap, ◌∙◌, subst, List, [], ◌∷◌, ◌++◌, length,
  take, map, All, arith, append_assoc, append-nil, length-append, length-take, length-drop, dec_lt,
}
use native.Mathlib.Nat.{zero-add, sub-zero}
use basis_rust_server.Common.Words.{Bytes}
use basis_rust_server.Protocol.Io.{
  NetWriter, NetReader, ok, err, underflow, Read, ◌>>=◌, return, new_writer, new_reader, remaining,
  take_bytes,
}
use basis_rust_server.Protocol.Io.Reads.{
  Reads, ahead, advance, ahead-advance, bind-Reads, map-Reads, return-Reads,
}

-- What a `put_…` method is.
abbrev pub Write : Type 0
Write = NetWriter → NetWriter

-- One call after the other.
infixr 3 ◌⨾◌
abbrev pub ◌⨾◌ : Write → Write → Write
◌⨾◌ first second w = second (first w)

-- Where only a part of `xs` lies ahead and nothing after it, the method reports that bytes are missing.
abbrev pub Cuts {ℓ} : {A : Type ℓ} → Read A → Bytes → Type ℓ
Cuts m xs =
    (r : NetReader) (n : ℕ)
    → n < length xs
    → ahead r ≡ take n xs
    → (needed left : ℕ) × (m r ≡ err (underflow needed left))

pub take_bytes-Cuts : (k : ℕ) (xs : Bytes) → k ≡ length xs → Cuts (take_bytes k) xs
unfolding take_bytes remaining
take_bytes-Cuts k xs e r n h a = (
  k,
  length r.bytes - r.pos,
  ground (arith, ap length a, length-take n xs, length-drop r.pos r.bytes),
)

-- A method that starts with one that is cut short.
pub first-Cuts {ℓ κ} :
    {A : Type ℓ} {B : Type κ} {m : Read A} (f : A → Read B) {xs : Bytes}
    → Cuts m xs
    → Cuts (m >>= f) xs
first-Cuts f p r n h a = let (needed, left, e) = p r n h a in (needed, left, rw (e, ◌>>=◌))

take_in_front {ℓ} :
    {A : Type ℓ} (n : ℕ) (xs ys : List A) → n < length xs → take n (xs ++ ys) ≡ take n xs
take_in_front n [] ys h = absurd (omega arith)
take_in_front zero (x ∷ xs) ys h = refl
take_in_front (suc n) (x ∷ xs) ys h = ap (◌∷◌ x) (take_in_front n xs ys (omega arith))

take_beyond {ℓ} :
    {A : Type ℓ} (n : ℕ) (xs ys : List A)
    → length xs ≤ n
    → take n (xs ++ ys) ≡ xs ++ take (n - length xs) ys
take_beyond n [] ys h = rw sub-zero
take_beyond zero (x ∷ xs) ys h = absurd (omega arith)
take_beyond (suc n) (x ∷ xs) ys h =
    ap (◌∷◌ x) (take_beyond n xs ys (omega arith) ∙ ap (λ (k : ℕ). xs ++ take k ys) (omega arith))

pub bind-Cuts {ℓ κ} :
    {A : Type ℓ} {B : Type κ} {m : Read A} (f : A → Read B) {xs ys : Bytes} {a : A}
    → Reads m xs a
    → Cuts m xs
    → Cuts (f a) ys
    → Cuts (m >>= f) (xs ++ ys)
bind-Cuts {m = m} f {xs = xs} {ys = ys} {a = a} reads p q r n h here = elim (dec_lt n (length xs)) [
  | yes short ↦ first-Cuts f p r n short (here ∙ take_in_front n xs ys short)
  | no long ↦
      let e : ahead r ≡ xs ++ take (n - length xs) ys =
        here ∙ take_beyond n xs ys (omega (arith, long)) in
      let (needed, left, failed) =
        q (advance (length xs) r) (n - length xs) (omega (arith, long, length-append xs ys))
          (ahead-advance (length xs) r xs (take (n - length xs) ys) e refl) in
      (needed, left, rw (reads.run r (take (n - length xs) ys) e, ◌>>=◌) failed)
]

-- What `put` writes, `get` takes and returns `a` for; and of a part of it, `get` reports that bytes
-- are missing.
pub record Carries {ℓ} {A : Type ℓ} (put : Write) (get : Read A) (a : A) : Type ℓ where
  pub wire : Bytes
  pub writes : (w : NetWriter) → (put w).bytes ≡ w.bytes ++ wire
  pub reads : Reads get wire a
  pub cuts : Cuts get wire

pub bind-Carries {ℓ κ} :
    {A : Type ℓ} {B : Type κ} {put put' : Write} {get : Read A} (f : A → Read B) {a : A} {b : B}
    → Carries put get a
    → Carries put' (f a) b
    → Carries (put ⨾ put') (get >>= f) b
bind-Carries {put = put} f p q = record {
  wire = p.wire ++ q.wire;
  writes = λ w. q.writes (put w) ∙ rw (p.writes w) (append_assoc w.bytes p.wire q.wire);
  reads = bind-Reads f p.reads q.reads;
  cuts = bind-Cuts f p.reads p.cuts q.cuts;
}

pub map-Carries {ℓ κ} :
    {A : Type ℓ} {B : Type κ} {put : Write} {get : Read A} (g : A → B) {a : A} {b : B}
    → Carries put get a
    → g a ≡ b
    → Carries put (get >>= λ x. return (g x)) b
map-Carries g p e = record {
  wire = p.wire;
  writes = p.writes;
  reads = map-Reads g p.reads e;
  cuts = first-Cuts (λ x. return (g x)) p.cuts;
}

-- Another method that writes the same.
pub same-Carries {ℓ} :
    {A : Type ℓ} {put : Write} (put' : Write) {get : Read A} {a : A}
    → Carries put get a
    → ((w : NetWriter) → (put' w).bytes ≡ (put w).bytes)
    → Carries put' get a
same-Carries put' p e = record {
  wire = p.wire;
  writes = λ w. e w ∙ p.writes w;
  reads = p.reads;
  cuts = p.cuts;
}

abbrev pub skip : Write
skip w = w

pub return-Carries {ℓ} : {A : Type ℓ} (a : A) → Carries skip (return a) a
return-Carries a = record {
  wire = [];
  writes = λ w. sym (append-nil w.bytes);
  reads = return-Reads a;
  cuts = λ r n h here. absurd (omega arith);
}

-- `for item in items { … }`, and `for _ in 0..count { items.push(…) }`.
abbrev pub put_each : {A : Type 0} → (A → Write) → List A → Write
put_each put [] = skip
put_each put (a ∷ rest) = put a ⨾ put_each put rest

abbrev pub get_times : {A : Type 0} → ℕ → Read A → Read (List A)
get_times zero get = return []
get_times (suc n) get = do a ← get; rest ← get_times n get; return (a ∷ rest)

pub each-Carries :
    {A : Type 0} (put : A → Write) (get : Read A) (received : A → A) (n : ℕ) (items : List A)
    → n ≡ length items
    → All (λ a. Carries (put a) get (received a)) items
    → Carries (put_each put items) (get_times n get) (map received items)
each-Carries put get received zero [] e h = return-Carries []
each-Carries put get received (suc n) [] e h = absurd (omega (arith, e))
each-Carries put get received zero (a ∷ items) e h = absurd (omega (arith, e))
each-Carries put get received (suc n) (a ∷ items) e h = bind-Carries _ h.0 (
    map-Carries (λ rest. received a ∷ rest)
      (each-Carries put get received n items (omega (arith, e)) h.1) refl)

map_same {ℓ} : {A : Type ℓ} (xs : List A) → map (λ a. a) xs ≡ xs
map_same [] = refl
map_same (x ∷ xs) = ap (◌∷◌ x) (map_same xs)

pub each_same-Carries :
    {A : Type 0} (put : A → Write) (get : Read A) (n : ℕ) (items : List A)
    → n ≡ length items
    → All (λ a. Carries (put a) get a) items
    → Carries (put_each put items) (get_times n get) items
each_same-Carries put get n items e h =
    subst (Carries (put_each put items) (get_times n get)) (map_same items)
      (each-Carries put get (λ a. a) n items e h)

-- The whole of what was written, with anything behind it, is read back.
pub reads_back {ℓ} :
    {A : Type ℓ} (put : Write) (get : Read A) {a : A} (tail : Bytes)
    → Carries put get a
    → let written = (put new_writer).bytes in
      get (new_reader (written ++ tail))
      ≡ ok (a, record { bytes = written ++ tail; pos = length written })
unfolding new_writer new_reader
reads_back put get tail p =
    rw (p.writes new_writer)
      (Reads.run p.reads (new_reader (p.wire ++ tail)) tail refl ∙ rw zero-add)

-- A part of it is refused.
pub refuses_part {ℓ} :
    {A : Type ℓ} (put : Write) (get : Read A) {a : A} (n : ℕ)
    → Carries put get a
    → n < length (put new_writer).bytes
    → (needed left : ℕ) × (get (new_reader (take n (put new_writer).bytes))
        ≡ err (underflow needed left))
unfolding new_writer new_reader
refuses_part put get n p h =
    rw (p.writes new_writer)
      (p.cuts (new_reader (take n p.wire)) n (rw (p.writes new_writer) at h) refl)
