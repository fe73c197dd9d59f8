-- ===== src/Tests/Messages.antt =====
-- Messages at concrete inputs.
use basis_rust_server.Common.{
  ℕ, ◌<◌, ◌≡◌, refl, true, [], ◌∷◌, ◌++◌, length, take, replicate, arith,
}
use basis_rust_server.Common.Words.{to_le_bytes}
use basis_rust_server.Protocol.Messages.Objects.{serialize_preload_ready_message}
use basis_rust_server.Protocol.Avatar.{payload_len}
use basis_rust_server.Common.Utf8.{is_utf8}
use basis_rust_server.Protocol.Io.{
  NetReader, ok, err, underflow, new_writer, new_reader, put_bool, put_string,
}
use basis_rust_server.Protocol.Messages.Avatars.{ReadyMessage, sync_payload_len}
use basis_rust_server.Protocol.Messages.Kinds.{
  Message, serialize_message, deserialize_message, LastMessage, serialize_last_message,
  deserialize_last_message, ready, preload_ready, avatar_data,
}
use basis_rust_server.Protocol.Messages.Kinds.RoundTrip.{
  Fits, received, deserialize_message-serialize_message, deserialize_message-part,
  deserialize_last_message-serialize_last_message,
}

-- "ada" is ready; the platform has no name, and one of two pieces of data is empty.
abbrev pub ada_ready : ReadyMessage
ada_ready = record {
  player_meta_data_message = record {
    player_uuid = 0x61 ∷ 0x64 ∷ 0x61 ∷ [];
    player_display_name = 0x61 ∷ [];
    player_platform = [];
  };
  client_avatar_change_message = record {
    load_mode = 1;
    byte_array = 9 ∷ 8 ∷ [];
    local_avatar_index = 2;
  };
  local_avatar_sync_message = record {
    data_quality_level = 0;
    array = replicate 112 0;
    additional_avatar_datas =
        record { message_index = 3; bytes = [] }
        ∷ record { message_index = 4; bytes = 5 ∷ [] }
        ∷ [];
    linked_avatar_index = 6;
  };
}

pub ada_ready-Fits : Fits ready ada_ready
unfolding is_utf8 sync_payload_len payload_len
ada_ready-Fits = (
  ((refl, omega arith), (refl, omega arith), (refl, omega arith)),
  omega arith,
  (refl, omega arith),
)

deserialize_message-serialize_message_example :
    let written = (serialize_message ready ada_ready new_writer).bytes in
    deserialize_message ready (new_reader (written ++ (7 ∷ [])))
    ≡ ok (received ready ada_ready, record { bytes = written ++ (7 ∷ []); pos = length written })
deserialize_message-serialize_message_example =
    deserialize_message-serialize_message ready ada_ready (7 ∷ []) ada_ready-Fits

abbrev preload : Message preload_ready
preload = record { loaded_net_id = 0x61 ∷ []; is_ready = true }

preload-Fits : Fits preload_ready preload
unfolding is_utf8
preload-Fits = (refl, omega arith)

preload_short : 3 < length (serialize_message preload_ready preload new_writer).bytes
unfolding serialize_message serialize_preload_ready_message put_bool put_string new_writer
    to_le_bytes
preload_short = omega arith

deserialize_message-part_example :
    (needed left : ℕ) × (deserialize_message preload_ready
        (new_reader (take 3 (serialize_message preload_ready preload new_writer).bytes))
      ≡ err (underflow needed left))
deserialize_message-part_example =
    deserialize_message-part preload_ready preload 3 preload-Fits preload_short

abbrev data_message : LastMessage avatar_data
data_message = record {
  player_id = 513;
  avatar_link_index = 1;
  message_index = 2;
  recipients = 7 ∷ 300 ∷ [];
  payload = 4 ∷ 5 ∷ [];
}

deserialize_last_message-serialize_last_message_example :
    (r : NetReader) × (deserialize_last_message avatar_data
        (new_reader (serialize_last_message avatar_data data_message new_writer).bytes)
      ≡ ok (data_message, r))
deserialize_last_message-serialize_last_message_example =
    deserialize_last_message-serialize_last_message avatar_data data_message (omega arith)
