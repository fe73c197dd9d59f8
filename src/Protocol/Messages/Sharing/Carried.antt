-- ===== src/Protocol/Messages/Sharing/Carried.antt =====
-- What the messages of Protocol/Messages/Sharing carry.
use basis_rust_server.Common.{◌^◌, ◌<◌, ◌≡◌, refl, ap}
use basis_rust_server.Protocol.Io.Carries.{Carries, bind-Carries, map-Carries}
use basis_rust_server.Protocol.Io.Carries.Words.{u8-Carries, u32-Carries, string-Carries, IsText}
use basis_rust_server.Protocol.Messages.Sharing.{
  ContentShareType, ContentShareMessage, share_type_byte, share_type_from,
  serialize_content_share_message, deserialize_content_share_message, avatar, prop, world, server,
  ContentShareCleanupMessage, serialize_content_share_cleanup_message,
  deserialize_content_share_cleanup_message,
}

abbrev pub FitsContentShareMessage : ContentShareMessage → Type 0
FitsContentShareMessage m =
    IsText m.sphere_net_id
    × IsText m.content_url
    × IsText m.unlock_password
    × (m.position_x < 2 ^ 32)
    × (m.position_y < 2 ^ 32)
    × (m.position_z < 2 ^ 32)

share_type_from-share_type_byte : (t : ContentShareType) → share_type_from (share_type_byte t) ≡ t
unfolding share_type_from share_type_byte
share_type_from-share_type_byte avatar = refl
share_type_from-share_type_byte prop = refl
share_type_from-share_type_byte world = refl
share_type_from-share_type_byte server = refl

pub content_share_message-Carries :
    (m : ContentShareMessage)
    → FitsContentShareMessage m
    → Carries (serialize_content_share_message m) deserialize_content_share_message m
unfolding serialize_content_share_message deserialize_content_share_message
content_share_message-Carries m h = bind-Carries _ (string-Carries m.sphere_net_id h.0) (
    bind-Carries _ (string-Carries m.content_url h.1) (
      bind-Carries _ (string-Carries m.unlock_password h.2) (
        bind-Carries _ (u8-Carries (share_type_byte m.content_type)) (
          bind-Carries _ (u32-Carries m.position_x h.3) (
            bind-Carries _ (u32-Carries m.position_y h.4) (
              map-Carries _ (u32-Carries m.position_z h.5) (
                ap (λ (t : ContentShareType). record m { content_type = t })
                  (share_type_from-share_type_byte m.content_type))))))))

abbrev pub FitsContentShareCleanupMessage : ContentShareCleanupMessage → Type 0
FitsContentShareCleanupMessage m = IsText m.sphere_net_id

pub content_share_cleanup_message-Carries :
    (m : ContentShareCleanupMessage)
    → FitsContentShareCleanupMessage m
    → Carries
        (serialize_content_share_cleanup_message m)
        deserialize_content_share_cleanup_message
        m
unfolding serialize_content_share_cleanup_message deserialize_content_share_cleanup_message
content_share_cleanup_message-Carries m h = map-Carries _ (string-Carries m.sphere_net_id h) refl
