-- ===== src/Protocol/Io/Carries/Words.antt =====
-- The numbers, bytes and texts that are carried.
use basis_rust_server.Common.{
  ℕ, zero, suc, ◌+◌, ◌^◌, ◌<◌, ◌≡◌, refl, sym, Bool, true, [], ◌∷◌, length, arith, if◌then◌else◌,
}
use basis_rust_server.Common.Words.{Bytes, to_le_bytes, length-to_le_bytes}
use basis_rust_server.Common.Utf8.{is_utf8}
use basis_rust_server.Protocol.Io.{
  Read, ◌>>=◌, take_bytes, put_u8, put_bool, put_u16, put_u32, put_bytes, put_string, get_u8,
  get_bool, get_u16, get_u32, get_bytes, get_string, after_length,
}
use basis_rust_server.Protocol.Io.RoundTrip.{
  text_bytes, get_u8-Reads, get_bool-Reads, get_u16-Reads, get_u32-Reads, get_bytes-Reads,
  get_string-Reads, bytes-put_string,
}
use basis_rust_server.Protocol.Io.Carries.{Cuts, take_bytes-Cuts, first-Cuts, bind-Cuts, Carries}

word-Cuts :
    (n v : ℕ) {B : Type 0} (f : Bytes → Read B) → Cuts (take_bytes n >>= f) (to_le_bytes n v)
word-Cuts n v f = first-Cuts f (take_bytes-Cuts n (to_le_bytes n v) (sym (length-to_le_bytes n v)))

pub u8-Carries : (v : ℕ) → Carries (put_u8 v) get_u8 v
unfolding put_u8 get_u8
u8-Carries v = record {
  wire = v ∷ [];
  writes = λ w. refl;
  reads = get_u8-Reads v;
  cuts = first-Cuts _ (take_bytes-Cuts 1 (v ∷ []) refl);
}

pub bool-Carries : (b : Bool) → Carries (put_bool b) get_bool b
unfolding put_bool put_u8 get_bool get_u8
bool-Carries b = record {
  wire = (if b then 1 else 0) ∷ [];
  writes = λ w. refl;
  reads = get_bool-Reads b;
  cuts = first-Cuts _ (first-Cuts _ (take_bytes-Cuts 1 ((if b then 1 else 0) ∷ []) refl));
}

get_u16-Cuts : (v : ℕ) → Cuts get_u16 (to_le_bytes 2 v)
unfolding get_u16
get_u16-Cuts v = word-Cuts 2 v _

pub u16-Carries : (v : ℕ) → v < 2 ^ 16 → Carries (put_u16 v) get_u16 v
unfolding put_u16 get_u16
u16-Carries v h = record {
  wire = to_le_bytes 2 v;
  writes = λ w. refl;
  reads = get_u16-Reads v h;
  cuts = get_u16-Cuts v;
}

pub u32-Carries : (v : ℕ) → v < 2 ^ 32 → Carries (put_u32 v) get_u32 v
unfolding put_u32 get_u32
u32-Carries v h = record {
  wire = to_le_bytes 4 v;
  writes = λ w. refl;
  reads = get_u32-Reads v h;
  cuts = word-Cuts 4 v _;
}

pub bytes-Carries : (n : ℕ) (bs : Bytes) → n ≡ length bs → Carries (put_bytes bs) (get_bytes n) bs
unfolding put_bytes get_bytes
bytes-Carries n bs e = record {
  wire = bs;
  writes = λ w. refl;
  reads = get_bytes-Reads n bs e;
  cuts = take_bytes-Cuts n bs e;
}

after_length-Cuts : (n : ℕ) (s : Bytes) → n ≡ length s + 1 → Cuts (after_length n) s
unfolding after_length
after_length-Cuts zero s e = absurd (omega arith)
after_length-Cuts (suc n) s e = first-Cuts _ (take_bytes-Cuts n s (omega arith))

get_string-Cuts : (s : Bytes) → length s + 1 < 2 ^ 16 → Cuts get_string (text_bytes s)
unfolding get_string
get_string-Cuts [] h = first-Cuts _ (get_u16-Cuts 0)
get_string-Cuts (c ∷ cs) h =
    bind-Cuts _ (get_u16-Reads (length (c ∷ cs) + 1) h) (get_u16-Cuts (length (c ∷ cs) + 1))
      (after_length-Cuts _ (c ∷ cs) refl)

-- The texts that `put_string` has room for.
abbrev pub IsText : Bytes → Type 0
IsText s = (is_utf8 s ≡ true) × (length s + 1 < 2 ^ 16)

pub string-Carries : (s : Bytes) → IsText s → Carries (put_string s) get_string s
string-Carries s (u, h) = record {
  wire = text_bytes s;
  writes = λ w. bytes-put_string s w h;
  reads = get_string-Reads s u h;
  cuts = get_string-Cuts s h;
}
