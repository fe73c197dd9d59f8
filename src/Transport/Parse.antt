-- ===== src/Transport/Parse.antt =====
-- The parts of `process_packet` that read a datagram: server-list queries, connection requests and
-- NAT introductions: BasisRustServer/crates/basis-transport/src/lib.rs.
pub mod RoundTrip
use basis_rust_server.Common.{
  ℕ, zero, suc, ◌+◌, ◌-◌, ◌*◌, ◌%◌, ◌^◌, Bool, false, [], ◌∷◌, ◌++◌, length, take, drop, get_or,
  Option, none, some, ltb, leb, ◌==◌, not, ◌&&◌, if◌then◌else◌, bit_xor, bit_and,
}
use basis_rust_server.Common.Words.{Bytes, to_le_bytes, from_le_bytes}
use basis_rust_server.Common.Utf8.{is_utf8}
use basis_rust_server.Protocol.ServerInfo.{server_info_query_magic, server_info_protocol_version}
use basis_rust_server.Transport.Address.{IpAddr, v4, v6, SocketAddr, socket_addr}
use basis_rust_server.Transport.Packet.{
  unconnected_message, nat_message, property_code, connection_number_of,
}

unfoldable pub looks_like_server_info_payload : Bytes → Bool
looks_like_server_info_payload bytes =
    let magic = from_le_bytes (take 4 bytes) in
    let protocol = from_le_bytes (take 2 (drop 4 bytes)) in
    if ltb (length bytes) 6
    then false
    else magic == server_info_query_magic && protocol == server_info_protocol_version

unconnected_payload : Bytes → Option Bytes
unfolding looks_like_server_info_payload property_code
unconnected_payload [] = none
unconnected_payload (header ∷ payload) =
    if bit_and header 0x1f == property_code unconnected_message
      && looks_like_server_info_payload payload
    then some payload
    else none

unfoldable pub server_info_payload : Bytes → Option Bytes
unfolding looks_like_server_info_payload unconnected_payload
server_info_payload bytes =
    if looks_like_server_info_payload bytes then some bytes else unconnected_payload bytes

abbrev pub litenetlib_protocol_id : ℕ
litenetlib_protocol_id = 13

pub record ParsedConnectRequest : Type 0 where
  pub payload : Bytes
  pub connect_time : ℕ
  pub local_peer_id : ℕ

pub data ConnectRequestParse : Type 0 where
  parsed : ParsedConnectRequest → ConnectRequestParse
  bad_protocol malformed : ConnectRequestParse

unfoldable pub parse_connect_request : Bytes → ConnectRequestParse
parse_connect_request bytes =
    let protocol = from_le_bytes (take 4 (drop 1 bytes)) in
    let connection_number = connection_number_of (get_or bytes 0 0) in
    let addr_len = get_or bytes 17 0 in
    let payload_start = 18 + addr_len in
    if ltb (length bytes) 18
    then malformed
    else if not (protocol == litenetlib_protocol_id)
    then bad_protocol
    else if leb 4 connection_number
    then malformed
    else if not (addr_len == 16) && not (addr_len == 28)
    then malformed
    else if ltb (length bytes) payload_start
    then malformed
    else parsed (record {
      payload = drop payload_start bytes;
      connect_time = from_le_bytes (take 8 (drop 5 bytes));
      local_peer_id = from_le_bytes (take 4 (drop 13 bytes));
    })

fnv1_64_from : ℕ → Bytes → ℕ
fnv1_64_from hash [] = hash
fnv1_64_from hash (b ∷ bytes) = fnv1_64_from (bit_xor hash b * 1099511628211 % 2 ^ 64) bytes

unfoldable pub fnv1_64 : Bytes → ℕ
unfolding fnv1_64_from
fnv1_64 text = fnv1_64_from 14695981039346656037 text

-- "LiteNetLib.NatPunchModule+NatIntroduceRequestPacket".
abbrev request_packet_name : Bytes
request_packet_name =
    76 ∷ 105 ∷ 116 ∷ 101 ∷ 78 ∷ 101 ∷ 116 ∷ 76 ∷ 105 ∷ 98 ∷ 46 ∷ 78 ∷ 97 ∷ 116 ∷ 80 ∷ 117 ∷ 110 ∷ 99
    ∷ 104 ∷ 77 ∷ 111 ∷ 100 ∷ 117 ∷ 108 ∷ 101 ∷ 43 ∷ 78 ∷ 97 ∷ 116 ∷ 73 ∷ 110 ∷ 116 ∷ 114 ∷ 111 ∷ 100
    ∷ 117 ∷ 99 ∷ 101 ∷ 82 ∷ 101 ∷ 113 ∷ 117 ∷ 101 ∷ 115 ∷ 116 ∷ 80 ∷ 97 ∷ 99 ∷ 107 ∷ 101 ∷ 116 ∷ []

-- "LiteNetLib.NatPunchModule+NatIntroduceResponsePacket".
abbrev response_packet_name : Bytes
response_packet_name =
    76 ∷ 105 ∷ 116 ∷ 101 ∷ 78 ∷ 101 ∷ 116 ∷ 76 ∷ 105 ∷ 98 ∷ 46 ∷ 78 ∷ 97 ∷ 116 ∷ 80 ∷ 117 ∷ 110 ∷ 99
    ∷ 104 ∷ 77 ∷ 111 ∷ 100 ∷ 117 ∷ 108 ∷ 101 ∷ 43 ∷ 78 ∷ 97 ∷ 116 ∷ 73 ∷ 110 ∷ 116 ∷ 114 ∷ 111 ∷ 100
    ∷ 117 ∷ 99 ∷ 101 ∷ 82 ∷ 101 ∷ 115 ∷ 112 ∷ 111 ∷ 110 ∷ 115 ∷ 101 ∷ 80 ∷ 97 ∷ 99 ∷ 107 ∷ 101 ∷ 116
    ∷ []

unfoldable pub nat_introduce_request_hash : ℕ
unfolding fnv1_64
nat_introduce_request_hash = fnv1_64 request_packet_name

unfoldable pub nat_introduce_response_hash : ℕ
unfolding fnv1_64
nat_introduce_response_hash = fnv1_64 response_packet_name

-- `bytes.get(position..position + n)?` and the step of the position, on the bytes that lie ahead of
-- the position, which never passes their end.
unfoldable pub get_range : ℕ → Bytes → Option (Bytes × Bytes)
get_range n rest = if leb n (length rest) then some (take n rest, drop n rest) else none

abbrev pub then_read : {A B : Type 0} → Option (A × Bytes) → (A → Bytes → Option B) → Option B
then_read none k = none
then_read (some (a, rest)) k = k a rest

-- The octets of an address, and its port.
read_octets : (Bytes → IpAddr) → ℕ → Bytes → Option (SocketAddr × Bytes)
unfolding get_range
read_octets ip n bytes = then_read (get_range n bytes) (λ octets rest.
    then_read (get_range 2 rest)
      (λ port end. some (socket_addr (ip octets) (from_le_bytes port), end)))

unfoldable pub read_litenet_endpoint : Bytes → Option (SocketAddr × Bytes)
unfolding read_octets
read_litenet_endpoint [] = none
read_litenet_endpoint (family ∷ rest) =
    if family == 0
    then read_octets v4 4 rest
    else if family == 1
    then read_octets v6 16 rest
    else none

unfoldable pub write_litenet_endpoint : Bytes → SocketAddr → Bytes
write_litenet_endpoint packet (socket_addr (v4 octets) port) =
    (packet ++ (0 ∷ octets)) ++ to_le_bytes 2 port
write_litenet_endpoint packet (socket_addr (v6 octets) port) =
    (packet ++ (1 ∷ octets)) ++ to_le_bytes 2 port

text_of_size : ℕ → Bytes → Option (Bytes × Bytes)
unfolding get_range
text_of_size zero rest = some ([], rest)
text_of_size (suc n) rest =
    then_read (get_range n rest) (λ raw end. if is_utf8 raw then some (raw, end) else none)

unfoldable pub read_litenet_string : Bytes → Option (Bytes × Bytes)
unfolding get_range text_of_size
read_litenet_string bytes =
    then_read (get_range 2 bytes) (λ size rest. text_of_size (from_le_bytes size) rest)

unfoldable pub write_litenet_string : Bytes → Bytes → Bytes
write_litenet_string packet [] = packet ++ to_le_bytes 2 0
write_litenet_string packet (b ∷ value) =
    let bytes = b ∷ value in
    let len_plus = if leb (length bytes + 1) 65535 then length bytes + 1 else 65535 in
    (packet ++ to_le_bytes 2 len_plus) ++ take (len_plus - 1) bytes

unfoldable pub parse_nat_introduce_request : Bytes → Option (SocketAddr × Bytes)
unfolding read_litenet_endpoint read_litenet_string nat_introduce_request_hash
parse_nat_introduce_request bytes =
    if ltb (length bytes) 8
    then none
    else if not (from_le_bytes (take 8 bytes) == nat_introduce_request_hash)
    then none
    else then_read (read_litenet_endpoint (drop 8 bytes)) (λ local_addr rest.
      then_read (read_litenet_string rest) (λ token end. some (local_addr, token)))

unfoldable pub build_nat_introduce_response : SocketAddr → SocketAddr → Bytes → Bytes
unfolding write_litenet_endpoint write_litenet_string nat_introduce_response_hash property_code
build_nat_introduce_response internal external token =
    let packet = property_code nat_message ∷ to_le_bytes 8 nat_introduce_response_hash in
    write_litenet_string (write_litenet_endpoint (write_litenet_endpoint packet internal) external)
      token
