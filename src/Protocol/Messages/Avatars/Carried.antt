-- ===== src/Protocol/Messages/Avatars/Carried.antt =====
-- What the messages of Protocol/Messages/Avatars carry.
use basis_rust_server.Common.{
  ℕ, zero, suc, ◌%◌, ◌^◌, ◌<◌, ◌≡◌, refl, sym, true, false, List, [], ◌∷◌, length, take, map, All,
  arith, if◌then◌else◌, ltb, ◌==◌,
}
use basis_rust_server.Common.Words.{Bytes}
use basis_rust_server.Protocol.Io.{◌>>=◌, return, put_u8, put_bytes, get_u8}
use basis_rust_server.Protocol.Io.Carries.{◌⨾◌, get_times}
use basis_rust_server.Protocol.Io.Carries.{
  Carries, bind-Carries, map-Carries, return-Carries, each-Carries,
}
use basis_rust_server.Protocol.Io.Carries.Words.{u8-Carries, u16-Carries, bytes-Carries}
use basis_rust_server.Protocol.Messages.Avatars.{
  AdditionalAvatarData, LocalAvatarSyncMessage, at_most_255, serialize_additional_avatar_data,
  deserialize_additional_avatar_data, serialize_local_avatar_sync_message, sync_payload_len,
  deserialize_local_avatar_sync_message, ReadyMessage, serialize_ready_message,
  deserialize_ready_message, ServerSideSyncPlayerMessage, serialize_server_side_sync_player_message,
  deserialize_server_side_sync_player_message,
}
use Prim.Native.Nat.{min}
use basis_rust_server.Common.{Bool-cases, inl, inr, length-take}
use basis_rust_server.Protocol.Messages.Players.Carried.{
  FitsClientMetaDataMessage, FitsClientAvatarChangeMessage, named, client_meta_data_message-Carries,
  client_avatar_change_message-Carries,
}
use basis_rust_server.Protocol.Messages.Avatars.{write_additional, additional_body}

-- Data that is too long is cut, and an index without data is lost.
abbrev pub kept_data : AdditionalAvatarData → AdditionalAvatarData
kept_data m =
    if length m.bytes == 0
    then record { message_index = 0; bytes = [] }
    else record m { bytes = at_most_255 m.bytes }

body-Carries :
    (message_index len : ℕ) (bytes : Bytes)
    → (len == 0) ≡ false
    → len ≡ length bytes
    → Carries {A = AdditionalAvatarData}
        (put_u8 message_index ⨾ put_bytes bytes)
        (if len == 0
          then return (record { message_index = 0; bytes = [] })
          else additional_body len)
        (record { message_index = message_index; bytes = bytes })
unfolding additional_body
body-Carries message_index len bytes some_left e =
    rw some_left
      (bind-Carries _ (u8-Carries message_index) (map-Carries _ (bytes-Carries len bytes e) refl))

pub additional_avatar_data-Carries :
    (m : AdditionalAvatarData)
    → Carries (serialize_additional_avatar_data m) deserialize_additional_avatar_data (kept_data m)
unfolding serialize_additional_avatar_data deserialize_additional_avatar_data
additional_avatar_data-Carries m = elim (Bool-cases (length m.bytes == 0)) [
  | inl e ↦
      let none_left : min (length m.bytes) 255 ≡ 0 = ground arith in
      rw (e, none_left)
        (bind-Carries _ (u8-Carries 0) (return-Carries (record { message_index = 0; bytes = [] })))
  | inr e ↦
      let len = min (length m.bytes) 255 in
      let written : ltb 0 len ≡ true = ground arith in
      rw (e, written)
        (bind-Carries _ (u8-Carries len) (
          body-Carries m.message_index len (take len m.bytes) (ground arith)
            (omega (arith, length-take len m.bytes))))
]

datas-Carries :
    (datas : List AdditionalAvatarData)
    → All
        (λ d.
          Carries
            (serialize_additional_avatar_data d)
            deserialize_additional_avatar_data
            (kept_data d))
        datas
datas-Carries [] = tt
datas-Carries (d ∷ ds) = (additional_avatar_data-Carries d, datas-Carries ds)

abbrev pub FitsLocalAvatarSyncMessage : LocalAvatarSyncMessage → Type 0
FitsLocalAvatarSyncMessage m =
    (length m.array ≡ sync_payload_len m.data_quality_level)
    × (length m.additional_avatar_datas < 2 ^ 8)

abbrev kept_link : ℕ → List AdditionalAvatarData → ℕ
kept_link linked [] = 0
kept_link linked (d ∷ ds) = linked

-- The link arrives with additional data only.
abbrev pub kept_sync : LocalAvatarSyncMessage → LocalAvatarSyncMessage
kept_sync m = record m {
  additional_avatar_datas = map kept_data m.additional_avatar_datas;
  linked_avatar_index = kept_link m.linked_avatar_index m.additional_avatar_datas;
}

additional-Carries :
    (level : ℕ) (array : Bytes) (linked count : ℕ) (datas : List AdditionalAvatarData)
    → count ≡ length datas
    → Carries {A = LocalAvatarSyncMessage}
        (write_additional linked datas)
        ((if ltb 0 count then get_u8 else return 0) >>= λ link.
          get_times count deserialize_additional_avatar_data >>= λ ds. return (record {
            data_quality_level = level;
            array = array;
            additional_avatar_datas = ds;
            linked_avatar_index = link;
          }))
        (record {
          data_quality_level = level;
          array = array;
          additional_avatar_datas = map kept_data datas;
          linked_avatar_index = kept_link linked datas;
        })
unfolding write_additional
additional-Carries level array linked zero [] e = return-Carries _
additional-Carries level array linked (suc n) [] e = absurd (omega (arith, e))
additional-Carries level array linked zero (d ∷ ds) e = absurd (omega (arith, e))
additional-Carries level array linked (suc n) (d ∷ ds) e =
    let more : ltb 0 (suc n) ≡ true = ground arith in
    rw more (
      bind-Carries _ (u8-Carries linked) (
        map-Carries _
          (each-Carries serialize_additional_avatar_data deserialize_additional_avatar_data
            kept_data (suc n) (d ∷ ds) e (datas-Carries (d ∷ ds)))
          refl))

pub local_avatar_sync_message-Carries :
    (m : LocalAvatarSyncMessage)
    → FitsLocalAvatarSyncMessage m
    → Carries
        (serialize_local_avatar_sync_message m)
        deserialize_local_avatar_sync_message
        (kept_sync m)
unfolding serialize_local_avatar_sync_message deserialize_local_avatar_sync_message
local_avatar_sync_message-Carries m h = bind-Carries _ (u8-Carries m.data_quality_level) (
    bind-Carries _ (bytes-Carries (sync_payload_len m.data_quality_level) m.array (sym h.0)) (
      bind-Carries _ (u8-Carries (length m.additional_avatar_datas % 2 ^ 8)) (
        additional-Carries m.data_quality_level m.array m.linked_avatar_index _
          m.additional_avatar_datas (omega (arith, h.1)))))

abbrev pub FitsReadyMessage : ReadyMessage → Type 0
FitsReadyMessage m =
    FitsClientMetaDataMessage m.player_meta_data_message
    × FitsClientAvatarChangeMessage m.client_avatar_change_message
    × FitsLocalAvatarSyncMessage m.local_avatar_sync_message

abbrev pub kept_ready : ReadyMessage → ReadyMessage
kept_ready m = record m {
  player_meta_data_message = named m.player_meta_data_message;
  local_avatar_sync_message = kept_sync m.local_avatar_sync_message;
}

pub ready_message-Carries :
    (m : ReadyMessage)
    → FitsReadyMessage m
    → Carries (serialize_ready_message m) deserialize_ready_message (kept_ready m)
unfolding serialize_ready_message deserialize_ready_message
ready_message-Carries m h =
    bind-Carries _ (client_meta_data_message-Carries m.player_meta_data_message h.0) (
      bind-Carries _ (client_avatar_change_message-Carries m.client_avatar_change_message h.1)
        (map-Carries _ (local_avatar_sync_message-Carries m.local_avatar_sync_message h.2) refl))

abbrev pub FitsServerSideSyncPlayerMessage : ServerSideSyncPlayerMessage → Type 0
FitsServerSideSyncPlayerMessage m =
    (m.player_id < 2 ^ 16) × FitsLocalAvatarSyncMessage m.avatar_serialization

abbrev pub kept_side_sync : ServerSideSyncPlayerMessage → ServerSideSyncPlayerMessage
kept_side_sync m = record m { avatar_serialization = kept_sync m.avatar_serialization }

pub server_side_sync_player_message-Carries :
    (m : ServerSideSyncPlayerMessage)
    → FitsServerSideSyncPlayerMessage m
    → Carries
        (serialize_server_side_sync_player_message m)
        deserialize_server_side_sync_player_message
        (kept_side_sync m)
unfolding serialize_server_side_sync_player_message deserialize_server_side_sync_player_message
server_side_sync_player_message-Carries m h = bind-Carries _ (u16-Carries m.player_id h.0) (
    bind-Carries _ (u8-Carries m.interval) (
      bind-Carries _ (u8-Carries m.sequence)
        (map-Carries _ (local_avatar_sync_message-Carries m.avatar_serialization h.1) refl)))
