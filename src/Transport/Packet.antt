-- ===== src/Transport/Packet.antt =====
-- The headers of BasisRustServer/crates/basis-transport/src/lib.rs: packet properties, delivery
-- methods and the parsers of single packets.
use Prim.Native.Nat.{bit_and, bit_or}
use basis_rust_server.Common.{
  ℕ, zero, suc, ◌+◌, ◌*◌, ◌/◌, ◌%◌, ◌^◌, ◌<◌, ◌≡◌, refl, Bool, true, false, List, [], ◌∷◌, length,
  drop, get_elem?, get_or, Option, none, some, ltb, leb, ◌==◌, if◌then◌else◌, arith,
}
use basis_rust_server.Common.Words.{Bytes}

pub data PacketProperty : Type 0 where
  unreliable channeled ack ping pong connect_request connect_accept disconnect : PacketProperty
  unconnected_message mtu_check mtu_ok broadcast merged shutdown_ok peer_not_found : PacketProperty
  invalid_protocol nat_message empty : PacketProperty

-- `property as u8`.
unfoldable pub property_code : PacketProperty → ℕ
property_code unreliable = 0
property_code channeled = 1
property_code ack = 2
property_code ping = 3
property_code pong = 4
property_code connect_request = 5
property_code connect_accept = 6
property_code disconnect = 7
property_code unconnected_message = 8
property_code mtu_check = 9
property_code mtu_ok = 10
property_code broadcast = 11
property_code merged = 12
property_code shutdown_ok = 13
property_code peer_not_found = 14
property_code invalid_protocol = 15
property_code nat_message = 16
property_code empty = 17

-- The arms of the match, from 0 on.
abbrev properties : List PacketProperty
properties =
    unreliable ∷ channeled ∷ ack ∷ ping ∷ pong ∷ connect_request ∷ connect_accept ∷ disconnect
    ∷ unconnected_message ∷ mtu_check ∷ mtu_ok ∷ broadcast ∷ merged ∷ shutdown_ok ∷ peer_not_found
    ∷ invalid_protocol ∷ nat_message ∷ empty ∷ []

unfoldable pub property_from_byte : ℕ → Option PacketProperty
property_from_byte value = get_elem? properties (bit_and value 0x1f)

-- `property as u8 | (connection_number << 5)`, on bytes.
unfoldable pub header : PacketProperty → ℕ → ℕ
unfolding property_code
header property connection_number =
    bit_or (property_code property) (connection_number * 2 ^ 5 % 2 ^ 8)

-- `(header & 0x60) >> 5`.
unfoldable pub connection_number_of : ℕ → ℕ
connection_number_of header = bit_and header 0x60 / 2 ^ 5

pub data DeliveryMethod : Type 0 where
  reliable_unordered sequenced reliable_ordered reliable_sequenced unreliable_delivery :
      DeliveryMethod

unfoldable pub delivery_from_channel_id : ℕ → DeliveryMethod
delivery_from_channel_id channel_id =
    let kind = channel_id % 4 in
    if kind == 0
    then reliable_unordered
    else if kind == 1
    then sequenced
    else if kind == 2
    then reliable_ordered
    else reliable_sequenced

unfoldable pub delivery_offset : DeliveryMethod → ℕ
delivery_offset reliable_unordered = 0
delivery_offset sequenced = 1
delivery_offset reliable_ordered = 2
delivery_offset reliable_sequenced = 3
delivery_offset unreliable_delivery = 1

-- On bytes, which wrap.
unfoldable pub channel_id_of : ℕ → DeliveryMethod → ℕ
unfolding delivery_offset
channel_id_of channel delivery = (channel * 4 + delivery_offset delivery) % 2 ^ 8

unfoldable pub is_reliable_delivery : DeliveryMethod → Bool
is_reliable_delivery reliable_unordered = true
is_reliable_delivery sequenced = false
is_reliable_delivery reliable_ordered = true
is_reliable_delivery reliable_sequenced = true
is_reliable_delivery unreliable_delivery = false

-- A message that came in: its channel, its delivery method and its payload.
pub record Message : Type 0 where
  pub channel : ℕ
  pub delivery : DeliveryMethod
  pub payload : Bytes

parse_unreliable : Bytes → Option Message
parse_unreliable bytes =
    if ltb (length bytes) 2
    then none
    else some (record {
      channel = get_or bytes 1 0;
      delivery = unreliable_delivery;
      payload = drop 2 bytes;
    })

parse_channeled : Bytes → Option Message
parse_channeled bytes =
    if ltb (length bytes) 4
    then none
    else some (record {
      channel = get_or bytes 3 0 / 4;
      delivery = delivery_from_channel_id (get_or bytes 3 0);
      payload = drop 4 bytes;
    })

unfoldable pub parse_message_packet : PacketProperty → Bytes → Option Message
unfolding parse_unreliable parse_channeled
parse_message_packet unreliable bytes = parse_unreliable bytes
parse_message_packet channeled bytes = parse_channeled bytes
parse_message_packet _ bytes = none

unfoldable pub header_size : PacketProperty → ℕ
header_size unreliable = 2
header_size channeled = 4
header_size ack = 4
header_size ping = 3
header_size pong = 11
header_size connect_request = 18
header_size connect_accept = 15
header_size disconnect = 9
header_size _ = 1

fits_header : Bytes → Option PacketProperty → Bool
unfolding header_size
fits_header bytes none = false
fits_header bytes (some property) = leb (header_size property) (length bytes)

abbrev pub first_property : Bytes → Option PacketProperty
first_property [] = none
first_property (b ∷ bs) = property_from_byte b

unfoldable pub is_valid_merged_packet : Bytes → Bool
unfolding fits_header
is_valid_merged_packet bytes = fits_header bytes (first_property bytes)

four : (P : ℕ → Type 0) → P 0 → P 1 → P 2 → P 3 → (c : ℕ) → c < 4 → P c
four P a b c d zero h = a
four P a b c d (suc zero) h = b
four P a b c d (suc (suc zero)) h = c
four P a b c d (suc (suc (suc zero))) h = d
four P a b c d (suc (suc (suc (suc n)))) h = absurd (omega arith)

-- A header byte carries its property.
pub property_from_byte-header :
    (p : PacketProperty) (c : ℕ) → c < 4 → property_from_byte (header p c) ≡ some p
unfolding property_from_byte header
property_from_byte-header unreliable = four _ refl refl refl refl
property_from_byte-header _ = four _ refl refl refl refl

-- And the number of its connection.
pub connection_number_of-header :
    (p : PacketProperty) (c : ℕ) → c < 4 → connection_number_of (header p c) ≡ c
unfolding connection_number_of header
connection_number_of-header unreliable = four _ refl refl refl refl
connection_number_of-header _ = four _ refl refl refl refl
