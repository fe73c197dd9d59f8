-- ===== src/Tests/Core.antt =====
-- The server at concrete inputs.
use basis_rust_server.Common.{
  ℕ, ◌++◌, ◌≡◌, refl, true, false, not, ◌&&◌, ◌||◌, ◌==◌, [], ◌∷◌, some, if◌then◌else◌, arith, ◌⊎◌,
  ℕ_discrete,
}
use basis_rust_server.Common.Maps.{lookup, insert, member, nat_key, text_key, text_discrete}
use basis_rust_server.Common.Words.{to_le_bytes, from_le_bytes}
use basis_rust_server.Protocol.Io.{ok, new_reader, take_bytes, remaining, get_u8, get_u16}
use basis_rust_server.Protocol.Messages.Objects.{LocalLoadResource}
use basis_rust_server.Protocol.Messages.Talk.{deserialize_voice_receivers_message}
use basis_rust_server.Transport.Packet.{reliable_ordered}
use basis_rust_server.P2p.{is_offloaded}
use basis_rust_server.Core.{ConnectedPeer, ServerState, is_authenticated, is_p2p_offload_channel}
use basis_rust_server.Core.Voice.{
  update_voice_recipients, update_voice_recipients_bitfield, relay_voice_message,
}
use basis_rust_server.Core.Voice.Bitfield.{bit_at, heard_by_bits}
use basis_rust_server.Core.Voice.Heard.{targets, heard}
use basis_rust_server.Core.Relays.{is_nobody, send_to_recipients_or_broadcast}
use basis_rust_server.Core.Relays.Reach.{relayed_to}
use basis_rust_server.Core.Leaving.{handle_disconnect}
use basis_rust_server.Core.Leaving.Gone.{IsSound, IsGone, handle_disconnect-IsGone}
use basis_rust_server.Core.Leaving.Spared.{Spares, handle_disconnect-others}
use basis_rust_server.Resources.Store.{load_resource}
use basis_rust_server.Core.Locks.{resource_locked}
use basis_rust_server.Core.Tables.Loads.{load}
use basis_rust_server.Core.Tables.Loads.Creators.{load_lem}
use basis_rust_server.Tests.Messages.{ada_ready}

abbrev ada : ConnectedPeer
ada = record { id = 3; metadata = ada_ready.player_meta_data_message; ready = ada_ready }

abbrev bob : ConnectedPeer
bob = record {
  id = 5;
  metadata = record ada_ready.player_meta_data_message { player_uuid = 0x62 ∷ [] };
  ready = ada_ready;
}

abbrev plain : LocalLoadResource
plain = record {
  mode = 0;
  loaded_net_id = [];
  unlock_password = [];
  combined_url = [];
  uuid_of_creator = [];
  is_admin_locked = false;
  position_x = 0;
  position_y = 0;
  position_z = 0;
  quaternion_x = 0;
  quaternion_y = 0;
  quaternion_z = 0;
  quaternion_w = 0;
  scale_x = 0;
  scale_y = 0;
  scale_z = 0;
  persist = false;
  modify_scale = false;
  load_strategy = 0;
}

abbrev lamp : LocalLoadResource
lamp = record plain { loaded_net_id = 0x6c ∷ []; is_admin_locked = true }

abbrev server : ServerState
server = record {
  authenticated_peers = (3, ada) ∷ (5, bob) ∷ [];
  pending_identity = [];
  permissions = record { users = []; groups = [] };
  global_state = record {
    avatars_locked = false;
    props_locked = false;
    worlds_locked = false;
    servers_locked = false;
    third_person_disabled = false;
    additional_avatar_data_lock = false;
    disallow_headless = false;
    headless_audio_off = false;
    opus_packet_loss_percent = 10;
    opus_frame_duration_ms = 20;
  };
  resources = record { resources = (0x6c ∷ [], lamp) ∷ []; preload_sessions = [] };
  net_ids = record { by_name = []; next_id = 0 };
  ownership = record { by_object = (0x72 ∷ [], 3) ∷ (0x73 ∷ [], 5) ∷ [] };
  content_share = record { spheres = [] };
  pip = record { states = [] };
  voice_recipients = [];
  avatar_sync = record {
    states = [];
    pending = [];
    tracking = [];
    bundle_ratios = [];
    inbound_updates = 0;
  };
  p2p_broker = record { sessions = []; peer_sessions = []; offloaded_pairs = [] };
}

server-IsSound : IsSound server
unfolding lookup text_discrete ℕ_discrete
server-IsSound = record {
  owners = (refl, (refl, tt));
  spheres = tt;
  sessions = λ t s e. ground arith;
}

handle_disconnect-IsGone_example : IsGone 3 (handle_disconnect 3 server).1
handle_disconnect-IsGone_example = handle_disconnect-IsGone 3 server server-IsSound

handle_disconnect-others_example : Spares 3 5 server (handle_disconnect 3 server).1
unfolding lookup ℕ_discrete
handle_disconnect-others_example =
    handle_disconnect-others 3 5 bob server server-IsSound (λ e. ground arith) refl

heard_example :
    (after : ServerState) × (update_voice_recipients 3 (1 ∷ 5 ∷ 0 ∷ []) false false server
      ≡ ok after)
    × (member {K = ℕ} 5 (targets (relay_voice_message after 3 (9 ∷ []))) ≡ (
        not (5 == 3)
        && is_authenticated server 5
        && (if false then not (member {K = ℕ} 5 (5 ∷ [])) else member {K = ℕ} 5 (5 ∷ []))
        && not (is_offloaded 3 5 server.p2p_broker)))
unfolding deserialize_voice_receivers_message get_u8 get_u16 take_bytes remaining new_reader
    from_le_bytes
heard_example = heard 3 5 (1 ∷ 5 ∷ 0 ∷ []) (9 ∷ []) false false (5 ∷ []) _ server refl

relayed_to_example :
    member {K = ℕ} 5
      (targets (send_to_recipients_or_broadcast server 3 reliable_ordered 15 (1 ∷ []) (5 ∷ 3 ∷ [])))
    ≡ (is_authenticated server 5
        && not (5 == 3)
        && not (is_p2p_offload_channel 15 && is_offloaded 3 5 server.p2p_broker)
        && (is_nobody (5 ∷ 3 ∷ []) || member {K = ℕ} 5 (5 ∷ 3 ∷ [])))
relayed_to_example = relayed_to server 3 5 15 reliable_ordered (1 ∷ []) (5 ∷ 3 ∷ [])

abbrev chair : LocalLoadResource
chair = record plain { loaded_net_id = 0x63 ∷ []; uuid_of_creator = 0x78 ∷ [] }

abbrev owned : LocalLoadResource
owned = record chair { uuid_of_creator = ada.metadata.player_uuid }

load_lem_example :
    (lookup (0x63 ∷ []) server.resources.resources ≡ some owned)
    ⊎ ((p : ConnectedPeer) × (lookup 3 server.authenticated_peers ≡ some p)
        × (owned.uuid_of_creator ≡ p.metadata.player_uuid)
        × (resource_locked server owned 3 ≡ false))
unfolding load lookup text_discrete ℕ_discrete resource_locked load_resource insert
load_lem_example = load_lem 7 3 chair owned (0x63 ∷ []) server refl

heard_by_bits_example :
    let chosen = to_le_bytes 2 1 ++ ((0x20 ∷ []) ++ (7 ∷ [])) in
    let after = update_voice_recipients_bitfield 3 chosen server in
    member {K = ℕ} 5 (targets (relay_voice_message after 3 (9 ∷ []))) ≡ (
      not (5 == 3)
      && is_authenticated server 5
      && bit_at (0x20 ∷ []) 5
      && not (is_offloaded 3 5 server.p2p_broker))
heard_by_bits_example = heard_by_bits 3 5 (0x20 ∷ []) (7 ∷ []) (9 ∷ []) server (omega arith)
