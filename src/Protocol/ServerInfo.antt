-- ===== src/Protocol/ServerInfo.antt =====
-- BasisRustServer/crates/basis-protocol/src/server_info.rs: the query that a server list sends and
-- the answer to it.
pub mod RoundTrip
use basis_rust_server.Common.{
  ℕ, zero, suc, Bool, not, length, take, drop, get_elem?, Option, none, some, ltb, leb, ◌==◌, ◌||◌,
  if◌then◌else◌, ◌|>◌,
}
use basis_rust_server.Common.Words.{Bytes, from_le_bytes}
use basis_rust_server.Protocol.Io.{
  Result, NetReader, NetWriter, Read, ◌>>=◌, return, new_writer, new_reader, put_u16, put_u32,
  put_string, get_u16, get_u32, get_string,
}

abbrev pub server_info_query_magic : ℕ
server_info_query_magic = 0xba51_5101

abbrev pub server_info_response_magic : ℕ
server_info_response_magic = 0xba51_5102

abbrev pub server_info_protocol_version : ℕ
server_info_protocol_version = 1

abbrev pub server_info_name_max_length : ℕ
server_info_name_max_length = 64

abbrev pub server_info_motd_max_length : ℕ
server_info_motd_max_length = 256

abbrev pub server_info_min_request_bytes : ℕ
server_info_min_request_bytes = 384

pub record ServerInfoResponse : Type 0 where
  pub name : Bytes
  pub motd : Bytes
  pub online : ℕ
  pub max : ℕ
  pub nonce : ℕ

-- `str::is_char_boundary`: the end of the text, or the first byte of a character.
unfoldable pub is_char_boundary : Bytes → ℕ → Bool
is_char_boundary value end = elim (get_elem? value end) [
  | none ↦ end == length value
  | some b ↦ ltb b 0x80 || leb 0xc0 b
]

-- `while !value.is_char_boundary(end) { end -= 1; }`, which stops at 0 at the latest.
unfoldable pub boundary_below : Bytes → ℕ → ℕ
unfolding is_char_boundary
boundary_below value zero = zero
boundary_below value (suc end) =
    let below = boundary_below value end in
    if is_char_boundary value (suc end) then suc end else below

unfoldable pub trim_to_bytes : Bytes → ℕ → Bytes
unfolding boundary_below
trim_to_bytes value max =
    if leb (length value) max then value else take (boundary_below value max) value

unfoldable pub serialize : ServerInfoResponse → Bytes
unfolding trim_to_bytes new_writer put_u32 put_u16 put_string
serialize r = NetWriter.bytes (
    new_writer
    |> put_u32 server_info_response_magic
    |> put_u16 server_info_protocol_version
    |> put_u16 r.nonce
    |> put_u16 r.online
    |> put_u16 r.max
    |> put_string (trim_to_bytes r.name server_info_name_max_length)
    |> put_string (trim_to_bytes r.motd server_info_motd_max_length))

unfoldable pub read_response : Read ServerInfoResponse
read_response = do
  magic ← get_u32
  protocol ← get_u16
  nonce ← get_u16
  online ← get_u16
  max ← get_u16
  name ← get_string
  motd ← get_string
  return (record { name = name; motd = motd; online = online; max = max; nonce = nonce })

-- The answer is read from the front of the datagram; what follows it is not looked at.
unfoldable pub deserialize : Bytes → Result (ServerInfoResponse × NetReader)
unfolding read_response new_reader
deserialize bytes = read_response (new_reader bytes)

unfoldable pub parse_server_info_query_nonce : Bytes → Option ℕ
parse_server_info_query_nonce bytes =
    let magic = from_le_bytes (take 4 bytes) in
    let protocol = from_le_bytes (take 2 (drop 4 bytes)) in
    if ltb (length bytes) 8
    then none
    else if not (magic == server_info_query_magic) || not (protocol == server_info_protocol_version)
    then none
    else some (from_le_bytes (take 2 (drop 6 bytes)))
