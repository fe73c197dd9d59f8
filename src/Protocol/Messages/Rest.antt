-- ===== src/Protocol/Messages/Rest.antt =====
-- Payloads that reach to the end of the packet, and the messages that end with one.
use basis_rust_server.Common.{◌≡◌, refl, ◌∙◌, ◌++◌, append_assoc, length}
use basis_rust_server.Common.Words.{Bytes}
use basis_rust_server.Protocol.Io.{
  NetWriter, NetReader, ok, Read, ◌>>=◌, return, remaining_slice, put_bytes, new_writer, new_reader,
}
use basis_rust_server.Protocol.Io.Reads.{Reads, ahead, advance, ahead-advance}
use basis_rust_server.Protocol.Io.Carries.{Write, ◌⨾◌, Carries}

-- `reader.remaining_slice().to_vec()`, which does not move the reader on.
unfoldable pub rest_of_packet : Read Bytes
unfolding remaining_slice
rest_of_packet r = ok (remaining_slice r, r)

-- What `put` writes, `get` reads at the end of a packet and returns `a` for.
pub record Closes {ℓ} {A : Type ℓ} (put : Write) (get : Read A) (a : A) : Type ℓ where
  pub wire : Bytes
  pub writes : (w : NetWriter) → (put w).bytes ≡ w.bytes ++ wire
  pub reads_last : (r : NetReader) → ahead r ≡ wire → (r' : NetReader) × (get r ≡ ok (a, r'))

pub bind-Closes {ℓ κ} :
    {A : Type ℓ} {B : Type κ} {put put' : Write} {get : Read A} (f : A → Read B) {a : A} {b : B}
    → Carries put get a
    → Closes put' (f a) b
    → Closes (put ⨾ put') (get >>= f) b
bind-Closes {put = put} f p q = record {
  wire = p.wire ++ q.wire;
  writes = λ w. q.writes (put w) ∙ rw (p.writes w) (append_assoc w.bytes p.wire q.wire);
  reads_last = λ r h.
      let (r', e) =
        q.reads_last (advance (length p.wire) r)
          (ahead-advance (length p.wire) r p.wire q.wire h refl) in
      (r', rw (Reads.run p.reads r q.wire h, ◌>>=◌) e);
}

pub map-Closes {ℓ κ} :
    {A : Type ℓ} {B : Type κ} {put : Write} {get : Read A} (g : A → B) {a : A} {b : B}
    → Closes put get a
    → g a ≡ b
    → Closes put (get >>= λ x. return (g x)) b
map-Closes g p e = record {
  wire = p.wire;
  writes = p.writes;
  reads_last = λ r h. let (r', k) = p.reads_last r h in (r', rw (k, ◌>>=◌, e));
}

pub rest-Closes : (bs : Bytes) → Closes (put_bytes bs) rest_of_packet bs
unfolding put_bytes rest_of_packet
rest-Closes bs = record { wire = bs; writes = λ w. refl; reads_last = λ r h. (r, rw h) }

-- What was written is read back where nothing follows it.
pub reads_to_end {ℓ} :
    {A : Type ℓ} (put : Write) (get : Read A) {a : A}
    → Closes put get a
    → (r : NetReader) × (get (new_reader (put new_writer).bytes) ≡ ok (a, r))
unfolding new_writer new_reader
reads_to_end put get p = rw (p.writes new_writer) (p.reads_last (new_reader p.wire) refl)
