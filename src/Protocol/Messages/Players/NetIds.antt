-- ===== src/Protocol/Messages/Players/NetIds.antt =====
-- An empty name is written as nothing: it can be read at the end of a packet only.
use basis_rust_server.Common.{
  ℕ, ◌+◌, ◌^◌, ◌<◌, ◌≡◌, refl, sym, ap, ◌∙◌, true, false, [], ◌∷◌, ◌++◌, length, arith, append-nil,
  append_assoc, length-append, length-drop, ◌==◌,
}
use basis_rust_server.Common.Words.{Bytes, to_le_bytes}
use basis_rust_server.Protocol.Io.{NetReader, remaining, put_string}
use basis_rust_server.Protocol.Io.Reads.{Reads, ahead, advance, map-Reads, bind-Reads}
use basis_rust_server.Protocol.Io.RoundTrip.{text_bytes, get_string-Reads, bytes-put_string}
use basis_rust_server.Protocol.Io.Carries.{◌⨾◌}
use basis_rust_server.Protocol.Io.Carries.Words.{IsText}
use basis_rust_server.Protocol.Messages.Rest.{Closes}
use basis_rust_server.Protocol.Messages.Players.{
  UshortUniqueIdMessage, serialize_ushort_unique_id_message, NetIdMessage, ServerNetIdMessage,
  write_net_id, read_net_id, serialize_net_id_message, deserialize_net_id_message,
  serialize_server_net_id_message, deserialize_server_net_id_message,
}
use basis_rust_server.Protocol.Messages.Players.Carried.{ushort_unique_id_message-Carries}

remaining-ahead : (r : NetReader) → remaining r ≡ length (ahead r)
unfolding remaining
remaining-ahead r = sym (length-drop r.pos r.bytes)

net_id-Reads :
    (c : ℕ) (cs : Bytes)
    → IsText (c ∷ cs)
    → Reads deserialize_net_id_message (text_bytes (c ∷ cs)) (record { player_id = c ∷ cs })
unfolding deserialize_net_id_message read_net_id
net_id-Reads c cs (u, h) = record {
  run = λ r ys here.
      let more : (remaining r == 0) ≡ false = ground (
        arith,
        remaining-ahead r,
        ap length here,
        length-append (to_le_bytes 2 (length (c ∷ cs) + 1) ++ (c ∷ cs)) ys,
        length-append (to_le_bytes 2 (length (c ∷ cs) + 1)) (c ∷ cs),
      ) in
      rw more (Reads.run (map-Reads _ (get_string-Reads (c ∷ cs) u h) refl) r ys here);
}

abbrev pub FitsNetIdMessage : NetIdMessage → Type 0
FitsNetIdMessage m = IsText m.player_id

net_id-Closes :
    (s : Bytes)
    → IsText s
    → Closes (write_net_id s) deserialize_net_id_message (record { player_id = s })
unfolding write_net_id deserialize_net_id_message
net_id-Closes [] h = record {
  wire = [];
  writes = λ w. sym (append-nil w.bytes);
  reads_last = λ r here.
      let none_left : (remaining r == 0) ≡ true =
        ground (arith, remaining-ahead r, ap length here) in
      (r, rw none_left);
}
net_id-Closes (c ∷ cs) h = record {
  wire = text_bytes (c ∷ cs);
  writes = λ w. bytes-put_string (c ∷ cs) w h.1;
  reads_last = λ r here. (
    advance (length (text_bytes (c ∷ cs))) r,
    unfold deserialize_net_id_message in
        Reads.run (net_id-Reads c cs h) r [] (here ∙ sym (append-nil (text_bytes (c ∷ cs)))),
  );
}

pub net_id_message-Closes :
    (m : NetIdMessage)
    → FitsNetIdMessage m
    → Closes (serialize_net_id_message m) deserialize_net_id_message m
unfolding serialize_net_id_message
net_id_message-Closes m h = net_id-Closes m.player_id h

abbrev pub FitsServerNetIdMessage : ServerNetIdMessage → Type 0
FitsServerNetIdMessage m =
    (0 < length m.net_id_message.player_id)
    × IsText m.net_id_message.player_id
    × (m.ushort_unique_id_message.unique_id_ushort < 2 ^ 16)

server_net_id-Closes :
    (s : Bytes) (id : UshortUniqueIdMessage)
    → 0 < length s
    → IsText s
    → id.unique_id_ushort < 2 ^ 16
    → Closes
        (write_net_id s ⨾ serialize_ushort_unique_id_message id)
        deserialize_server_net_id_message
        (record { net_id_message = record { player_id = s }; ushort_unique_id_message = id })
unfolding write_net_id deserialize_server_net_id_message
server_net_id-Closes [] id some h k = absurd (omega arith)
server_net_id-Closes (c ∷ cs) id some h k =
    let rest = ushort_unique_id_message-Carries id k in
    record {
      wire = text_bytes (c ∷ cs) ++ rest.wire;
      writes = λ w.
          rest.writes (put_string (c ∷ cs) w)
          ∙ rw (bytes-put_string (c ∷ cs) w h.1)
              (append_assoc w.bytes (text_bytes (c ∷ cs)) rest.wire);
      reads_last = λ r here. (
        advance (length (text_bytes (c ∷ cs) ++ rest.wire)) r,
        Reads.run (bind-Reads _ (net_id-Reads c cs h) (map-Reads _ rest.reads refl)) r []
            (here ∙ sym (append-nil (text_bytes (c ∷ cs) ++ rest.wire))),
      );
    }

pub server_net_id_message-Closes :
    (m : ServerNetIdMessage)
    → FitsServerNetIdMessage m
    → Closes (serialize_server_net_id_message m) deserialize_server_net_id_message m
unfolding serialize_server_net_id_message serialize_net_id_message
server_net_id_message-Closes m h =
    server_net_id-Closes m.net_id_message.player_id m.ushort_unique_id_message h.0 h.1 h.2
