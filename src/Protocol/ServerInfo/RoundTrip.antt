-- ===== src/Protocol/ServerInfo/RoundTrip.antt =====
-- An answer is read back as it was sent, its texts trimmed.
use basis_rust_server.Common.{
  ℕ, zero, suc, ◌^◌, ◌<◌, ◌≤◌, ◌≡◌, refl, ap, sym, ◌∙◌, true, [], ◌∷◌, ◌++◌, length, take,
  get_elem?, none, leb, arith, Bool-cases, Option-cases, ◌⊎◌, inl, inr, append-nil, length-take,
  append_assoc,
}
use basis_rust_server.Common.Words.{Bytes, to_le_bytes}
use basis_rust_server.Common.Utf8.{is_utf8}
use basis_rust_server.Common.Utf8.Cut.{is_utf8-take}
use basis_rust_server.Protocol.Io.Reads.{Reads, bind-Reads, last-Reads, return-Reads}
use basis_rust_server.Protocol.Io.RoundTrip.{
  get_u16-Reads, get_u32-Reads, get_string-Reads, text_bytes, bytes-put_string,
}
use native.Mathlib.Nat.{zero-add}
use basis_rust_server.Protocol.Io.{ok, new_writer, new_reader, put_u16, put_u32}
use basis_rust_server.Protocol.ServerInfo.{
  ServerInfoResponse, is_char_boundary, boundary_below, trim_to_bytes, serialize, read_response,
  deserialize, server_info_response_magic, server_info_protocol_version,
  server_info_name_max_length, server_info_motd_max_length,
}

boundary_below-le : (value : Bytes) (max : ℕ) → boundary_below value max ≤ max
unfolding boundary_below
boundary_below-le value zero = omega arith
boundary_below-le value (suc max) = ground (arith, boundary_below-le value max)

boundary_below-boundary :
    (value : Bytes) (max : ℕ)
    → (boundary_below value max ≡ 0) ⊎ (is_char_boundary value (boundary_below value max) ≡ true)
unfolding boundary_below
boundary_below-boundary value zero = inl refl
boundary_below-boundary value (suc max) = elim (Bool-cases (is_char_boundary value (suc max))) [
  | inl e ↦ rw e (inr e)
  | inr e ↦ rw e (boundary_below-boundary value max)
]

get_elem?-lt : (bs : Bytes) (n : ℕ) → get_elem? bs n ≡ none → length bs ≤ n
get_elem?-lt [] n h = omega arith
get_elem?-lt (b ∷ bs) zero h = cc
get_elem?-lt (b ∷ bs) (suc n) h = omega (arith, get_elem?-lt bs n h)

take-boundary :
    (value : Bytes) (n : ℕ)
    → n < length value
    → is_char_boundary value n ≡ true
    → is_utf8 value ≡ true
    → is_utf8 (take n value) ≡ true
unfolding is_char_boundary
take-boundary value n h e u = elim (Option-cases (get_elem? value n)) [
  | inl past ↦ absurd (omega (arith, get_elem?-lt value n past))
  | inr (b, at) ↦ is_utf8-take n b value at (rw (at, is_char_boundary) at e) u
]

-- A trimmed text is a text, and no longer than asked.
trim_to_bytes_lem :
    (value : Bytes) (max : ℕ)
    → is_utf8 value ≡ true
    → (is_utf8 (trim_to_bytes value max) ≡ true) × (length (trim_to_bytes value max) ≤ max)
unfolding trim_to_bytes
trim_to_bytes_lem value max u = elim (Bool-cases (leb (length value) max)) [
  | inl short ↦ rw short (u, ground arith)
  | inr long ↦ rw long (
    cut (ground arith) (boundary_below-boundary value max),
    ground (arith, length-take (boundary_below value max) value, boundary_below-le value max),
  )
]
  where
    cut :
        max < length value
        → ((boundary_below value max ≡ 0)
            ⊎ (is_char_boundary value (boundary_below value max) ≡ true))
        → is_utf8 (take (boundary_below value max) value) ≡ true
    cut h (inl e) = rw e (unfold is_utf8 in refl)
    cut h (inr e) =
        take-boundary value (boundary_below value max) (omega (arith, boundary_below-le value max))
          e u

-- The bytes of an answer whose texts are not too long.
response_bytes : ServerInfoResponse → Bytes
response_bytes r =
    to_le_bytes 4 server_info_response_magic
    ++ to_le_bytes 2 server_info_protocol_version
    ++ to_le_bytes 2 r.nonce
    ++ to_le_bytes 2 r.online
    ++ to_le_bytes 2 r.max
    ++ text_bytes r.name
    ++ text_bytes r.motd

abbrev trimmed : ServerInfoResponse → ServerInfoResponse
trimmed r = record r {
  name = trim_to_bytes r.name server_info_name_max_length;
  motd = trim_to_bytes r.motd server_info_motd_max_length;
}

serialize-bytes :
    (r : ServerInfoResponse)
    → length (trim_to_bytes r.name 64) ≤ 64
    → length (trim_to_bytes r.motd 256) ≤ 256
    → serialize r ≡ response_bytes (trimmed r)
unfolding serialize response_bytes new_writer put_u32 put_u16
serialize-bytes r h k =
    rw
      (
        bytes-put_string (trim_to_bytes r.motd 256) _ (omega arith),
        bytes-put_string (trim_to_bytes r.name 64) _ (omega arith),
      )
      (rw append_assoc refl)

read_response-Reads :
    (r : ServerInfoResponse)
    → is_utf8 r.name ≡ true
    → is_utf8 r.motd ≡ true
    → length r.name ≤ 64
    → length r.motd ≤ 256
    → r.online < 2 ^ 16
    → r.max < 2 ^ 16
    → r.nonce < 2 ^ 16
    → Reads read_response (response_bytes r) r
unfolding read_response response_bytes to_le_bytes
read_response-Reads r u v h k o x n =
    bind-Reads _ (get_u32-Reads server_info_response_magic (omega arith)) (
      bind-Reads _ (get_u16-Reads server_info_protocol_version (omega arith)) (
        bind-Reads _ (get_u16-Reads r.nonce n) (
          bind-Reads _ (get_u16-Reads r.online o) (
            bind-Reads _ (get_u16-Reads r.max x) (
              bind-Reads _ (get_string-Reads r.name u (omega arith))
                (last-Reads _ (get_string-Reads r.motd v (omega arith)) (return-Reads _)))))))

-- A client reads the answer to a server-list query as the server made it, with its texts cut to
-- 64 and 256 bytes, and both texts are still texts. The name and the message are UTF-8 and the
-- three numbers fit 16 bits.
pub deserialize-serialize :
    (r : ServerInfoResponse)
    → is_utf8 r.name ≡ true
    → is_utf8 r.motd ≡ true
    → r.online < 2 ^ 16
    → r.max < 2 ^ 16
    → r.nonce < 2 ^ 16
    → deserialize (serialize r)
      ≡ ok (
        record r { name = trim_to_bytes r.name 64; motd = trim_to_bytes r.motd 256 },
        record { bytes = serialize r; pos = length (serialize r) },
      )
unfolding deserialize new_reader
deserialize-serialize r u v o x n =
    let (nu, nl) = trim_to_bytes_lem r.name 64 u in
    let (mu, ml) = trim_to_bytes_lem r.motd 256 v in
    rw (serialize-bytes r nl ml) (
      Reads.run (read_response-Reads (trimmed r) nu mu nl ml o x n)
        (new_reader (response_bytes (trimmed r))) [] (sym (append-nil (response_bytes (trimmed r))))
      ∙ ap (λ n. ok (trimmed r, record { bytes = response_bytes (trimmed r); pos = n }))
          (zero-add (length (response_bytes (trimmed r)))))
