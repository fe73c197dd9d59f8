-- ===== src/Protocol/Did.antt =====
-- The challenge and the answer of an authentication by decentralised id:
-- BasisRustServer/crates/basis-protocol/src/did.rs. The signature is checked by a library.
use basis_rust_server.Common.{◌≡◌, refl, true, [], ◌∷◌, length, arith, ◌^◌, ◌<◌}
use basis_rust_server.Common.Words.{Bytes}
use basis_rust_server.Common.Utf8.{is_utf8}
use basis_rust_server.Protocol.Io.{Read, ◌>>=◌, return, as_text}
use basis_rust_server.Protocol.Io.Carries.{
  Write, ◌⨾◌, skip, Carries, bind-Carries, map-Carries, return-Carries,
}
use basis_rust_server.Protocol.Messages.Players.{serialize_bytes_message, deserialize_bytes_message}
use basis_rust_server.Protocol.Messages.Players.Carried.{bytes_message-Carries}

pub record DidChallenge : Type 0 where
  pub bytes : Bytes

unfoldable pub serialize_did_challenge : DidChallenge → Write
serialize_did_challenge m = serialize_bytes_message (record { bytes = m.bytes })

unfoldable pub deserialize_did_challenge : Read DidChallenge
deserialize_did_challenge = do m ← deserialize_bytes_message; return (record { bytes = m.bytes })

pub record DidResponse : Type 0 where
  pub signature : Bytes
  pub fragment : Bytes

-- "N/A".
abbrev pub not_available : Bytes
not_available = 0x4e ∷ 0x2f ∷ 0x41 ∷ []

unfoldable pub sent_fragment : Bytes → Bytes
sent_fragment [] = not_available
sent_fragment (c ∷ cs) = c ∷ cs

unfoldable pub serialize_did_response : DidResponse → Write
serialize_did_response m =
    serialize_bytes_message (record { bytes = m.signature })
    ⨾ serialize_bytes_message (record { bytes = sent_fragment m.fragment })

unfoldable pub deserialize_did_response : Read DidResponse
deserialize_did_response = do
  signature ← deserialize_bytes_message
  fragment ← deserialize_bytes_message
  text ← as_text fragment.bytes
  return (record { signature = signature.bytes; fragment = text })

pub did_challenge-Carries :
    (m : DidChallenge)
    → length m.bytes < 2 ^ 16
    → Carries (serialize_did_challenge m) deserialize_did_challenge m
unfolding serialize_did_challenge deserialize_did_challenge
did_challenge-Carries m h =
    map-Carries _ (bytes_message-Carries (record { bytes = m.bytes }) h) refl

as_text-Carries : (s : Bytes) → is_utf8 s ≡ true → Carries skip (as_text s) s
unfolding as_text
as_text-Carries s h = rw h (return-Carries s)

sent_fragment-utf8 : (s : Bytes) → is_utf8 s ≡ true → is_utf8 (sent_fragment s) ≡ true
unfolding sent_fragment is_utf8
sent_fragment-utf8 [] h = refl
sent_fragment-utf8 (c ∷ cs) h = h

sent_fragment-length : (s : Bytes) → length s < 2 ^ 16 → length (sent_fragment s) < 2 ^ 16
unfolding sent_fragment
sent_fragment-length [] h = omega arith
sent_fragment-length (c ∷ cs) h = h

abbrev pub FitsDidResponse : DidResponse → Type 0
FitsDidResponse m =
    (length m.signature < 2 ^ 16) × (is_utf8 m.fragment ≡ true) × (length m.fragment < 2 ^ 16)

-- An empty fragment arrives as "N/A".
abbrev pub answered : DidResponse → DidResponse
answered m = record m { fragment = sent_fragment m.fragment }

pub did_response-Carries :
    (m : DidResponse)
    → FitsDidResponse m
    → Carries (serialize_did_response m) deserialize_did_response (answered m)
unfolding serialize_did_response deserialize_did_response
did_response-Carries m h =
    bind-Carries _ (bytes_message-Carries (record { bytes = m.signature }) h.0) (
      bind-Carries {put' = skip} _
        (bytes_message-Carries (record { bytes = sent_fragment m.fragment })
          (sent_fragment-length m.fragment h.2))
        (map-Carries _
          (as_text-Carries (sent_fragment m.fragment) (sent_fragment-utf8 m.fragment h.1)) refl))
