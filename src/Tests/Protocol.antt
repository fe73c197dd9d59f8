-- ===== src/Tests/Protocol.antt =====
-- The wire format at concrete inputs.
use basis_rust_server.Common.{◌≡◌, refl, true, [], ◌∷◌, ◌++◌, length, arith}
use basis_rust_server.Common.Words.{Bytes}
use basis_rust_server.Common.Utf8.{is_utf8}
use basis_rust_server.Protocol.Io.{ok, new_writer, new_reader}
use basis_rust_server.Protocol.Io.Fields.{
  u8, u16, text, blob, put_fields, get_fields, get_fields-put_fields,
}
use basis_rust_server.Protocol.ServerInfo.{
  ServerInfoResponse, serialize, deserialize, trim_to_bytes,
}
use basis_rust_server.Protocol.ServerInfo.RoundTrip.{deserialize-serialize}

abbrev hello : Bytes
hello = 0x68 ∷ 0xc3 ∷ 0xa9 ∷ []

hello-is_utf8 : is_utf8 hello ≡ true
unfolding is_utf8
hello-is_utf8 = refl

get_fields-put_fields_example :
    let fs = u8 7 ∷ text hello ∷ u16 300 ∷ blob (1 ∷ 2 ∷ []) ∷ [] in
    let written = (put_fields fs new_writer).bytes in
    get_fields fs (new_reader (written ++ (9 ∷ [])))
    ≡ ok (fs, record { bytes = written ++ (9 ∷ []); pos = length written })
get_fields-put_fields_example =
    get_fields-put_fields (u8 7 ∷ text hello ∷ u16 300 ∷ blob (1 ∷ 2 ∷ []) ∷ []) (9 ∷ [])
      (omega arith, ((hello-is_utf8, omega arith), (omega arith, (omega arith, tt))))

abbrev answer : ServerInfoResponse
answer = record { name = hello; motd = []; online = 3; max = 1024; nonce = 77 }

deserialize-serialize_example :
    deserialize (serialize answer)
    ≡ ok (
      record answer { name = trim_to_bytes hello 64; motd = trim_to_bytes [] 256 },
      record { bytes = serialize answer; pos = length (serialize answer) },
    )
deserialize-serialize_example =
    deserialize-serialize answer hello-is_utf8 (unfold is_utf8 in refl) (omega arith) (omega arith)
      (omega arith)
