-- ===== src/Protocol/Io/Reads.antt =====
-- A relation between a reading method, the bytes that it takes and the value that it returns.
use basis_rust_server.Common.{
  ℕ, ◌+◌, ◌≡◌, refl, sym, ap, ◌∙◌, [], ◌++◌, length, take, drop, arith, length-append, subst,
  append-nil, length-drop, take-append, drop-append, drop-drop, append_assoc,
}
use native.Mathlib.Nat.{add-zero}
use basis_rust_server.Common.Words.{Bytes}
use basis_rust_server.Protocol.Io.{
  Result, err, NetReader, ok, Read, ◌>>=◌, return, remaining, take_bytes,
}

-- The bytes that are still to be read.
abbrev pub ahead : NetReader → Bytes
ahead r = drop r.pos r.bytes

abbrev pub advance : ℕ → NetReader → NetReader
advance n r = record r { pos = r.pos + n }

pub ahead-advance :
    (n : ℕ) (r : NetReader) (xs ys : Bytes)
    → ahead r ≡ xs ++ ys
    → n ≡ length xs
    → ahead (advance n r) ≡ ys
ahead-advance n r xs ys h e = sym (drop-drop r.pos n r.bytes) ∙ rw (h, e) (drop-append xs ys)

-- Wherever `xs` lies ahead, `m` takes exactly `xs` and returns `a`.
pub record Reads {ℓ} {A : Type ℓ} (m : Read A) (xs : Bytes) (a : A) : Type ℓ where
  pub run : (r : NetReader) (ys : Bytes) → ahead r ≡ xs ++ ys → m r ≡ ok (a, advance (length xs) r)

pub take_bytes-Reads : (n : ℕ) (xs : Bytes) → n ≡ length xs → Reads (take_bytes n) xs xs
unfolding take_bytes remaining
take_bytes-Reads n xs en = record {
  run = λ r ys h.
      let e : take n (ahead r) ≡ xs = rw (h, en) (take-append xs ys) in
      ground (arith, length-drop r.pos r.bytes, ap length h, length-append xs ys, e);
}

pub return-Reads {ℓ} : {A : Type ℓ} (a : A) → Reads (return a) [] a
return-Reads a = record { run = λ r ys h. rw add-zero }

pub bind-Reads {ℓ κ} :
    {A : Type ℓ} {B : Type κ} {m : Read A} (f : A → Read B) {xs ys : Bytes} {a : A} {b : B}
    → Reads m xs a
    → Reads (f a) ys b
    → Reads (m >>= f) (xs ++ ys) b
bind-Reads {m = m} f {xs = xs} {ys = ys} {a = a} p q = record {
  run = λ r zs h.
      let e : ahead r ≡ xs ++ (ys ++ zs) = h ∙ append_assoc xs ys zs in
      rw (p.run r (ys ++ zs) e, ◌>>=◌)
        (q.run (advance (length xs) r) zs (ahead-advance (length xs) r xs (ys ++ zs) e refl)
          ∙ ground (arith, length-append xs ys));
}

-- A method that only converts what another one read.
pub map-Reads {ℓ κ} :
    {A : Type ℓ} {B : Type κ} {m : Read A} (g : A → B) {xs : Bytes} {a : A} {b : B}
    → Reads m xs a
    → g a ≡ b
    → Reads (m >>= λ x. return (g x)) xs b
map-Reads g p e = record { run = λ r zs h. rw (p.run r zs h, ◌>>=◌, e) }

-- The last step takes nothing more.
pub last-Reads {ℓ κ} :
    {A : Type ℓ} {B : Type κ} {m : Read A} (f : A → Read B) {xs : Bytes} {a : A} {b : B}
    → Reads m xs a
    → Reads (f a) [] b
    → Reads (m >>= f) xs b
last-Reads {m = m} f {xs = xs} {b = b} p q =
    subst (λ ys. Reads (m >>= f) ys b) (append-nil xs) (bind-Reads f p q)

-- What a `do` block read, when it was read to its end.
pub bind-ok :
    {A B : Type 0} (m : Read A) (f : A → Read B) (r r' : NetReader) (b : B)
    → (m >>= f) r ≡ ok (b, r')
    → (a : A) × (s : NetReader) × (m r ≡ ok (a, s)) × (f a s ≡ ok (b, r'))
bind-ok {A = A} {B = B} m f r r' b e = split (m r) refl e
  where
    resume : Result (A × NetReader) → Result (B × NetReader)
    resume (ok (a, s)) = f a s
    resume (err x) = err x

    split :
        (x : Result (A × NetReader))
        → m r ≡ x
        → resume x ≡ ok (b, r')
        → (a : A) × (s : NetReader) × (m r ≡ ok (a, s)) × (f a s ≡ ok (b, r'))
    split (ok (a, s)) h g = (a, s, h, g)
    split (err x) h g = absurd (ground arith)

pub bind_read :
    {A B : Type 0} (m : Read A) (f : A → Read B) {r s : NetReader} {a : A}
    → m r ≡ ok (a, s)
    → (m >>= f) r ≡ f a s
bind_read m f e = ap (λ x. elim x [ ok (a, s) ↦ f a s | err y ↦ err y ]) e
