-- ===== src/Transport/Parse/RoundTrip.antt =====
-- What the two ends of an introduction write, they read.
use basis_rust_server.Common.{
  ℕ, zero, suc, ◌+◌, ◌-◌, ◌^◌, ◌<◌, ◌≡◌, refl, sym, ap, ◌∙◌, true, false, [], ◌∷◌, ◌++◌, length,
  take, drop, Option, none, some, ltb, leb, ◌==◌, if◌then◌else◌, arith, append_assoc, append-nil,
  length-append, take-append, drop-append,
}
use basis_rust_server.Common.Words.{
  Bytes, to_le_bytes, from_le_bytes, from_le_bytes-to_le_bytes, length-to_le_bytes,
}
use basis_rust_server.Common.Utf8.{is_utf8}
use basis_rust_server.Transport.Address.{IpAddr, v4, v6, SocketAddr, socket_addr}
use basis_rust_server.Transport.Packet.{property_code, nat_message}
use basis_rust_server.Transport.Parse.{
  get_range, then_read, read_octets, read_litenet_endpoint, write_litenet_endpoint, text_of_size,
  read_litenet_string, write_litenet_string, parse_nat_introduce_request,
  nat_introduce_request_hash, build_nat_introduce_response, nat_introduce_response_hash,
}

-- What a `SocketAddr` is: four or sixteen octets, and a 16-bit port.
abbrev pub IsEndpoint : SocketAddr → Type 0
IsEndpoint (socket_addr (v4 octets) port) = (length octets ≡ 4) × (port < 2 ^ 16)
IsEndpoint (socket_addr (v6 octets) port) = (length octets ≡ 16) × (port < 2 ^ 16)

get_range-append : (n : ℕ) (xs ys : Bytes) → length xs ≡ n → get_range n (xs ++ ys) ≡ some (xs, ys)
unfolding get_range
get_range-append n xs ys e =
    let fits : leb n (length (xs ++ ys)) ≡ true = ground (arith, length-append xs ys) in
    rw (get_range, fits, sym e, take-append, drop-append)

read_octets_lem :
    (ip : Bytes → IpAddr) (n port : ℕ) (octets tail : Bytes)
    → length octets ≡ n
    → port < 2 ^ 16
    → read_octets ip n (octets ++ (to_le_bytes 2 port ++ tail))
      ≡ some (socket_addr (ip octets) port, tail)
unfolding read_octets
read_octets_lem ip n port octets tail e h = rw (
  read_octets,
  get_range-append n octets (to_le_bytes 2 port ++ tail) e,
  get_range-append 2 (to_le_bytes 2 port) tail (length-to_le_bytes 2 port),
  from_le_bytes-to_le_bytes 2 port h,
)

endpoint_bytes : SocketAddr → Bytes
endpoint_bytes endpoint = write_litenet_endpoint [] endpoint

write_litenet_endpoint-bytes :
    (packet : Bytes) (endpoint : SocketAddr)
    → write_litenet_endpoint packet endpoint ≡ packet ++ endpoint_bytes endpoint
unfolding write_litenet_endpoint endpoint_bytes
write_litenet_endpoint-bytes packet (socket_addr (v4 octets) port) =
    append_assoc packet (0 ∷ octets) (to_le_bytes 2 port)
write_litenet_endpoint-bytes packet (socket_addr (v6 octets) port) =
    append_assoc packet (1 ∷ octets) (to_le_bytes 2 port)

read_endpoint_bytes :
    (endpoint : SocketAddr) (tail : Bytes)
    → IsEndpoint endpoint
    → read_litenet_endpoint (endpoint_bytes endpoint ++ tail) ≡ some (endpoint, tail)
unfolding endpoint_bytes write_litenet_endpoint read_litenet_endpoint
read_endpoint_bytes (socket_addr (v4 octets) port) tail h =
    ap (read_octets v4 4) (append_assoc octets (to_le_bytes 2 port) tail)
    ∙ read_octets_lem v4 4 port octets tail h.0 h.1
read_endpoint_bytes (socket_addr (v6 octets) port) tail h =
    ap (read_octets v6 16) (append_assoc octets (to_le_bytes 2 port) tail)
    ∙ read_octets_lem v6 16 port octets tail h.0 h.1

string_bytes : Bytes → Bytes
string_bytes value = write_litenet_string [] value

write_litenet_string-bytes :
    (packet value : Bytes) → write_litenet_string packet value ≡ packet ++ string_bytes value
unfolding write_litenet_string string_bytes
write_litenet_string-bytes packet [] = refl
write_litenet_string-bytes packet (b ∷ value) = append_assoc packet _ _

text_of_size_lem :
    (size : ℕ) (value tail : Bytes)
    → is_utf8 value ≡ true
    → size ≡ suc (length value)
    → text_of_size size (value ++ tail) ≡ some (value, tail)
unfolding text_of_size
text_of_size_lem zero value tail u e = absurd (omega arith)
text_of_size_lem (suc n) value tail u e =
    rw (text_of_size, get_range-append n value tail (omega arith), u)

take-length : (xs : Bytes) → take (length xs) xs ≡ xs
take-length xs = ap (take (length xs)) (sym (append-nil xs)) ∙ take-append xs []

string_bytes_lem :
    (b : ℕ) (value : Bytes)
    → length (b ∷ value) < 65535
    → string_bytes (b ∷ value) ≡ to_le_bytes 2 (length (b ∷ value) + 1) ++ (b ∷ value)
unfolding string_bytes write_litenet_string
string_bytes_lem b value h =
    let fits : leb (length (b ∷ value) + 1) 65535 ≡ true = ground arith in
    let all : length (b ∷ value) + 1 - 1 ≡ length (b ∷ value) = omega arith in
    rw (fits, all, take-length (b ∷ value))

read_string_bytes :
    (value tail : Bytes)
    → is_utf8 value ≡ true
    → length value < 65535
    → read_litenet_string (string_bytes value ++ tail) ≡ some (value, tail)
unfolding string_bytes write_litenet_string read_litenet_string
read_string_bytes [] tail u h = rw (
  read_litenet_string,
  get_range-append 2 (to_le_bytes 2 0) tail (length-to_le_bytes 2 0),
  from_le_bytes-to_le_bytes 2 0 (omega arith),
  text_of_size,
)
read_string_bytes (b ∷ value) tail u h =
    let size = length (b ∷ value) + 1 in
    rw
      (
        string_bytes_lem b value h,
        append_assoc (to_le_bytes 2 size) (b ∷ value) tail,
        read_litenet_string,
        get_range-append 2 (to_le_bytes 2 size) ((b ∷ value) ++ tail) (length-to_le_bytes 2 size),
        from_le_bytes-to_le_bytes 2 size (omega arith),
      )
      (text_of_size_lem size (b ∷ value) tail u (omega arith))

take_exactly :
    (n : ℕ) (xs ys : Bytes) → length xs ≡ n → (take n (xs ++ ys) ≡ xs) × (drop n (xs ++ ys) ≡ ys)
take_exactly n xs ys e = rw⁻¹ e (take-append xs ys, drop-append xs ys)

request_hash-small : nat_introduce_request_hash < 2 ^ 64
unfolding nat_introduce_request_hash
request_hash-small = omega arith

response_hash-small : nat_introduce_response_hash < 2 ^ 64
unfolding nat_introduce_response_hash
response_hash-small = omega arith

-- How a peer reads an introduction: two endpoints and a text behind the property and the hash.
unfoldable pub read_nat_introduce_response : Bytes → Option (SocketAddr × SocketAddr × Bytes)
read_nat_introduce_response bytes =
    if from_le_bytes (take 8 (drop 1 bytes)) == nat_introduce_response_hash
    then then_read (read_litenet_endpoint (drop 9 bytes)) (λ internal rest.
      then_read (read_litenet_endpoint rest) (λ external end.
        then_read (read_litenet_string end) (λ token _. some (internal, external, token))))
    else none

==-refl : (n : ℕ) → (n == n) ≡ true
==-refl n = ground arith

response_bytes_lem :
    (internal external : SocketAddr) (token : Bytes)
    → build_nat_introduce_response internal external token
      ≡ property_code nat_message
        ∷ (to_le_bytes 8 nat_introduce_response_hash
            ++ (endpoint_bytes internal ++ (endpoint_bytes external ++ (string_bytes token ++ []))))
unfolding build_nat_introduce_response
response_bytes_lem internal external token = rw (
  write_litenet_string-bytes,
  write_litenet_endpoint-bytes,
  write_litenet_endpoint-bytes _ internal,
  append-nil,
  append_assoc,
  append_assoc,
)

-- An introduction carries both endpoints and the token.
read_nat_introduce_response-build :
    (internal external : SocketAddr) (token : Bytes)
    → IsEndpoint internal
    → IsEndpoint external
    → is_utf8 token ≡ true
    → length token < 65535
    → read_nat_introduce_response (build_nat_introduce_response internal external token)
      ≡ some (internal, external, token)
unfolding read_nat_introduce_response
read_nat_introduce_response-build internal external token hi he u h =
    let hash = to_le_bytes 8 nat_introduce_response_hash in
    let rest = endpoint_bytes internal ++ (endpoint_bytes external ++ (string_bytes token ++ [])) in
    let flat : build_nat_introduce_response internal external token
        ≡ property_code nat_message ∷ (hash ++ rest) =
      response_bytes_lem internal external token in
    let (front, back) =
      take_exactly 8 hash rest (length-to_le_bytes 8 nat_introduce_response_hash) in
    rw (
      flat,
      read_nat_introduce_response,
      front,
      back,
      from_le_bytes-to_le_bytes 8 nat_introduce_response_hash response_hash-small,
      ==-refl nat_introduce_response_hash,
      read_endpoint_bytes internal (endpoint_bytes external ++ (string_bytes token ++ [])) hi,
      read_endpoint_bytes external (string_bytes token ++ []) he,
      read_string_bytes token [] u h,
    )

request_bytes_lem :
    (local_addr : SocketAddr) (token tail : Bytes)
    → write_litenet_string
          (write_litenet_endpoint (to_le_bytes 8 nat_introduce_request_hash) local_addr)
          token
        ++ tail
      ≡ to_le_bytes 8 nat_introduce_request_hash
        ++ (endpoint_bytes local_addr ++ (string_bytes token ++ tail))
request_bytes_lem local_addr token tail =
    rw (write_litenet_string-bytes, write_litenet_endpoint-bytes, append_assoc, append_assoc)

-- A request that names an endpoint and a token is read as what it names; anything may follow it.
parse_nat_introduce_request_lem :
    (local_addr : SocketAddr) (token tail : Bytes)
    → IsEndpoint local_addr
    → is_utf8 token ≡ true
    → length token < 65535
    → parse_nat_introduce_request (
        write_litenet_string
          (write_litenet_endpoint (to_le_bytes 8 nat_introduce_request_hash) local_addr)
          token
        ++ tail)
      ≡ some (local_addr, token)
unfolding parse_nat_introduce_request
parse_nat_introduce_request_lem local_addr token tail hl u h =
    let hash = to_le_bytes 8 nat_introduce_request_hash in
    let rest = endpoint_bytes local_addr ++ (string_bytes token ++ tail) in
    let flat : write_litenet_string (write_litenet_endpoint hash local_addr) token ++ tail
        ≡ hash ++ rest =
      request_bytes_lem local_addr token tail in
    let (front, back) =
      take_exactly 8 hash rest (length-to_le_bytes 8 nat_introduce_request_hash) in
    let long : ltb (length (hash ++ rest)) 8 ≡ false =
      ground (arith, length-append hash rest, length-to_le_bytes 8 nat_introduce_request_hash) in
    rw (
      flat,
      parse_nat_introduce_request,
      long,
      front,
      back,
      from_le_bytes-to_le_bytes 8 nat_introduce_request_hash request_hash-small,
      read_endpoint_bytes local_addr (string_bytes token ++ tail) hl,
      read_string_bytes token tail u h,
    )
