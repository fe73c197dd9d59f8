-- ===== src/Protocol/Messages/Talk/Carried.antt =====
-- What the messages of Protocol/Messages/Talk carry.
use basis_rust_server.Common.{ℕ, ◌%◌, ◌^◌, ◌<◌, ◌≡◌, refl, List, [], ◌∷◌, length, take, All, arith}
use basis_rust_server.Protocol.Io.{put_u16, get_u16}
use basis_rust_server.Protocol.Io.Carries.{put_each, get_times}
use basis_rust_server.Protocol.Io.Carries.{Carries, bind-Carries, map-Carries, each_same-Carries}
use basis_rust_server.Protocol.Io.Carries.Words.{u8-Carries, u16-Carries, bytes-Carries}
use basis_rust_server.Protocol.Messages.Talk.{
  ChatMessage, serialize_chat_message, deserialize_chat_message, AudioSegmentDataMessage,
  serialize_audio_segment_data_message, deserialize_audio_segment_data_message,
  ServerAudioSegmentMessage, serialize_server_audio_segment_message,
  deserialize_server_audio_segment_message, AvatarDataMessage, serialize_avatar_data_message,
  deserialize_avatar_data_message, RemoteAvatarDataMessage, serialize_remote_avatar_data_message,
  deserialize_remote_avatar_data_message, SceneDataMessage, serialize_scene_data_message,
  deserialize_scene_data_message, RemoteSceneDataMessage, serialize_remote_scene_data_message,
  deserialize_remote_scene_data_message, ServerStatisticMessage, serialize_server_statistic_message,
  deserialize_server_statistic_message,
}
use basis_rust_server.Protocol.Messages.Rest.{Closes, bind-Closes, map-Closes, rest-Closes}
use Prim.Native.Nat.{min}
use basis_rust_server.Common.{length-take}

-- A long message is cut.
abbrev pub heard : ChatMessage → ChatMessage
heard m = record { payload = take (min (length m.payload) 512) m.payload }

pub chat_message-Carries :
    (m : ChatMessage) → Carries (serialize_chat_message m) deserialize_chat_message (heard m)
unfolding serialize_chat_message deserialize_chat_message
chat_message-Carries m =
    let len = min (length m.payload) 512 in
    bind-Carries _ (u16-Carries (len % 2 ^ 16) (omega arith)) (
      map-Carries _
        (bytes-Carries _ (take len m.payload) (omega (arith, length-take len m.payload))) refl)

id-Carries :
    (ids : List ℕ) → All (λ id. id < 2 ^ 16) ids → All (λ id. Carries (put_u16 id) get_u16 id) ids
id-Carries [] h = tt
id-Carries (id ∷ ids) h = (u16-Carries id h.0, id-Carries ids h.1)

ids-Carries :
    (n : ℕ) (ids : List ℕ)
    → n ≡ length ids
    → All (λ id. id < 2 ^ 16) ids
    → Carries (put_each put_u16 ids) (get_times n get_u16) ids
ids-Carries n ids e h = each_same-Carries put_u16 get_u16 n ids e (id-Carries ids h)

abbrev pub FitsAudioSegmentDataMessage : AudioSegmentDataMessage → Type 0
FitsAudioSegmentDataMessage m = Unit {0}

pub audio_segment_data_message-Closes :
    (m : AudioSegmentDataMessage)
    → FitsAudioSegmentDataMessage m
    → Closes (serialize_audio_segment_data_message m) deserialize_audio_segment_data_message m
unfolding serialize_audio_segment_data_message deserialize_audio_segment_data_message
audio_segment_data_message-Closes m h = map-Closes _ (rest-Closes m.audio_segment) refl

abbrev pub FitsServerAudioSegmentMessage : ServerAudioSegmentMessage → Type 0
FitsServerAudioSegmentMessage m = m.player_id < 2 ^ 16

pub server_audio_segment_message-Closes :
    (m : ServerAudioSegmentMessage)
    → FitsServerAudioSegmentMessage m
    → Closes (serialize_server_audio_segment_message m) deserialize_server_audio_segment_message m
unfolding serialize_server_audio_segment_message deserialize_server_audio_segment_message
    deserialize_audio_segment_data_message
server_audio_segment_message-Closes m h =
    bind-Closes _ (u16-Carries m.player_id h)
      (map-Closes _ (map-Closes _ (rest-Closes m.audio_segment) refl) refl)

abbrev pub FitsAvatarDataMessage : AvatarDataMessage → Type 0
FitsAvatarDataMessage m =
    (m.player_id < 2 ^ 16) × (length m.recipients < 2 ^ 16) × All (λ id. id < 2 ^ 16) m.recipients

pub avatar_data_message-Closes :
    (m : AvatarDataMessage)
    → FitsAvatarDataMessage m
    → Closes (serialize_avatar_data_message m) deserialize_avatar_data_message m
unfolding serialize_avatar_data_message deserialize_avatar_data_message
avatar_data_message-Closes m h = bind-Closes _ (u16-Carries m.player_id h.0) (
    bind-Closes _ (u8-Carries m.avatar_link_index) (
      bind-Closes _ (u8-Carries m.message_index) (
        bind-Closes _ (u16-Carries (length m.recipients % 2 ^ 16) (omega arith)) (
          bind-Closes _
            (ids-Carries (length m.recipients % 2 ^ 16) m.recipients (omega (arith, h.1)) h.2)
            (map-Closes _ (rest-Closes m.payload) refl)))))

abbrev pub FitsRemoteAvatarDataMessage : RemoteAvatarDataMessage → Type 0
FitsRemoteAvatarDataMessage m = m.player_id < 2 ^ 16

pub remote_avatar_data_message-Closes :
    (m : RemoteAvatarDataMessage)
    → FitsRemoteAvatarDataMessage m
    → Closes (serialize_remote_avatar_data_message m) deserialize_remote_avatar_data_message m
unfolding serialize_remote_avatar_data_message deserialize_remote_avatar_data_message
remote_avatar_data_message-Closes m h = bind-Closes _ (u16-Carries m.player_id h) (
    bind-Closes _ (u8-Carries m.avatar_link_index)
      (bind-Closes _ (u8-Carries m.message_index) (map-Closes _ (rest-Closes m.payload) refl)))

abbrev pub FitsSceneDataMessage : SceneDataMessage → Type 0
FitsSceneDataMessage m =
    (m.message_index < 2 ^ 16)
    × (length m.recipients < 2 ^ 16)
    × All (λ id. id < 2 ^ 16) m.recipients

pub scene_data_message-Closes :
    (m : SceneDataMessage)
    → FitsSceneDataMessage m
    → Closes (serialize_scene_data_message m) deserialize_scene_data_message m
unfolding serialize_scene_data_message deserialize_scene_data_message
scene_data_message-Closes m h = bind-Closes _ (u16-Carries m.message_index h.0) (
    bind-Closes _ (u16-Carries (length m.recipients % 2 ^ 16) (omega arith)) (
      bind-Closes _
        (ids-Carries (length m.recipients % 2 ^ 16) m.recipients (omega (arith, h.1)) h.2)
        (map-Closes _ (rest-Closes m.payload) refl)))

abbrev pub FitsRemoteSceneDataMessage : RemoteSceneDataMessage → Type 0
FitsRemoteSceneDataMessage m = m.message_index < 2 ^ 16

pub remote_scene_data_message-Closes :
    (m : RemoteSceneDataMessage)
    → FitsRemoteSceneDataMessage m
    → Closes (serialize_remote_scene_data_message m) deserialize_remote_scene_data_message m
unfolding serialize_remote_scene_data_message deserialize_remote_scene_data_message
remote_scene_data_message-Closes m h =
    bind-Closes _ (u16-Carries m.message_index h) (map-Closes _ (rest-Closes m.payload) refl)

abbrev pub FitsServerStatisticMessage : ServerStatisticMessage → Type 0
FitsServerStatisticMessage m = Unit {0}

pub server_statistic_message-Closes :
    (m : ServerStatisticMessage)
    → FitsServerStatisticMessage m
    → Closes (serialize_server_statistic_message m) deserialize_server_statistic_message m
unfolding serialize_server_statistic_message deserialize_server_statistic_message
server_statistic_message-Closes m h = map-Closes _ (rest-Closes m.statistics) refl
