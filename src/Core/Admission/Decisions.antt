-- ===== src/Core/Admission/Decisions.antt =====
-- Who is admitted, and why others are not.
use basis_rust_server.Common.{
  ℕ, ◌<◌, ◌≤◌, ◌≡◌, refl, sym, ap, ◌∙◌, Bool, true, false, List, [], ◌∷◌, All, ltb, leb, not, ◌&&◌,
  if◌then◌else◌, arith,
}
use basis_rust_server.Common.Words.{Bytes}
use basis_rust_server.Protocol.Io.{
  Result, ok, err, NetReader, Read, ◌>>=◌, return, new_reader, get_u16,
}
use basis_rust_server.Protocol.Io.Reads.{bind-ok, bind_read}
use basis_rust_server.Protocol.Messages.Players.{BytesMessage, deserialize_bytes_message}
use basis_rust_server.Protocol.Messages.Avatars.{ReadyMessage, deserialize_ready_message}
use basis_rust_server.Moderation.{is_ip_banned, is_uuid_banned, is_whitelisted, is_blacklisted}
use basis_rust_server.Core.Admission.{
  BasisUserRestrictionMode, unrestricted, white_list, black_list, Gate, Refusal, banned_ip,
  server_full, outdated, wrong_password, headless, banned, not_on_whitelist, on_blacklist, Decision,
  refused, admitted, server_version, limit, password_matches, is_headless_platform, after_ready,
  after_auth, after_version, judge_request,
}

-- The fields of a request, one after the other.
abbrev pub request_fields : Read (ℕ × BytesMessage × ReadyMessage)
request_fields = do
  client_version ← get_u16
  auth ← deserialize_bytes_message
  ready ← deserialize_ready_message
  return (client_version, auth, ready)

abbrev pub is_white_list : BasisUserRestrictionMode → Bool
is_white_list unrestricted = false
is_white_list white_list = true
is_white_list black_list = false

abbrev pub is_black_list : BasisUserRestrictionMode → Bool
is_black_list unrestricted = false
is_black_list white_list = false
is_black_list black_list = true

-- Each obstacle with its refusal, in the order in which they count.
abbrev pub obstacles : Gate → Bytes → ℕ → BytesMessage → ReadyMessage → List (Bool × Refusal)
obstacles gate ip client_version auth ready =
    let player = ready.player_meta_data_message in
    let mode = gate.config.basis_user_restriction_mode in
    (is_ip_banned ip gate.moderation, banned_ip)
    ∷ (leb (limit gate.config) gate.player_count, server_full)
    ∷ (ltb client_version server_version, outdated)
    ∷ (
      gate.config.use_auth && not (password_matches gate.config.password auth.bytes),
      wrong_password,
    )
    ∷ (gate.disallow_headless && is_headless_platform player.player_platform, headless)
    ∷ (is_uuid_banned player.player_uuid gate.moderation, banned)
    ∷ (
      is_white_list mode && not (is_whitelisted player.player_uuid gate.moderation),
      not_on_whitelist,
    )
    ∷ (is_black_list mode && is_blacklisted player.player_uuid gate.moderation, on_blacklist)
    ∷ []

abbrev pub first_obstacle : ReadyMessage → List (Bool × Refusal) → Decision
first_obstacle ready [] = admitted ready
first_obstacle ready ((stands, refusal) ∷ rest) =
    if stands then refused refusal else first_obstacle ready rest

after_ready_lem :
    (gate : Gate) (ready : ReadyMessage) (r : NetReader)
    → after_ready gate (ok (ready, r))
      ≡ first_obstacle ready (
          (
            gate.disallow_headless
                && is_headless_platform ready.player_meta_data_message.player_platform,
            headless,
          )
          ∷ (is_uuid_banned ready.player_meta_data_message.player_uuid gate.moderation, banned)
          ∷ (
            is_white_list gate.config.basis_user_restriction_mode
                && not (is_whitelisted ready.player_meta_data_message.player_uuid gate.moderation),
            not_on_whitelist,
          )
          ∷ (
            is_black_list gate.config.basis_user_restriction_mode
                && is_blacklisted ready.player_meta_data_message.player_uuid gate.moderation,
            on_blacklist,
          )
          ∷ [])
unfolding after_ready
after_ready_lem gate ready r = ground arith

judge_read :
    (gate : Gate) (ip payload : Bytes) (v : ℕ) (a : BytesMessage) (m : ReadyMessage)
    (r1 r2 r3 : NetReader)
    → get_u16 (new_reader payload) ≡ ok (v, r1)
    → deserialize_bytes_message r1 ≡ ok (a, r2)
    → deserialize_ready_message r2 ≡ ok (m, r3)
    → judge_request gate ip payload ≡ first_obstacle m (obstacles gate ip v a m)
unfolding judge_request after_version after_auth
judge_read gate ip payload v a m r1 r2 r3 e1 e2 e3 =
    rw (judge_request, e1, after_version, e2, after_auth, e3, after_ready_lem gate m r3)

-- A request whose fields can be read is refused for the first obstacle that stands, and admitted if none
-- does.
pub judge_request_lem :
    (gate : Gate) (ip payload : Bytes) (client_version : ℕ) (auth : BytesMessage)
    (ready : ReadyMessage) (r : NetReader)
    → request_fields (new_reader payload) ≡ ok ((client_version, auth, ready), r)
    → judge_request gate ip payload
      ≡ first_obstacle ready (obstacles gate ip client_version auth ready)
judge_request_lem gate ip payload client_version auth ready r e =
    let (v, r1, e1, f1) =
      bind-ok get_u16 _ (new_reader payload) r (client_version, auth, ready) e in
    let (a, r2, e2, f2) =
      bind-ok deserialize_bytes_message _ r1 r (client_version, auth, ready) f1 in
    let (m, r3, e3, f3) =
      bind-ok deserialize_ready_message _ r2 r (client_version, auth, ready) f2 in
    let (ev, ea, em) : (v ≡ client_version) × (a ≡ auth) × (m ≡ ready) = ground arith in
    rw (sym ev, sym ea, sym em) (judge_read gate ip payload v a m r1 r2 r3 e1 e2 e3)

first_obstacle-admitted :
    (m ready : ReadyMessage) (list : List (Bool × Refusal))
    → first_obstacle m list ≡ admitted ready
    → (m ≡ ready) × All (λ (o : Bool × Refusal). o.0 ≡ false) list
first_obstacle-admitted m ready [] e = (ground arith, tt)
first_obstacle-admitted m ready ((true, refusal) ∷ list) e = absurd (ground arith)
first_obstacle-admitted m ready ((false, refusal) ∷ list) e =
    let (same, rest) = first_obstacle-admitted m ready list e in (same, (refl, rest))

-- A request that is admitted has been read to its end.
ready_read :
    (gate : Gate) (ready : ReadyMessage) (x : Result (ReadyMessage × NetReader))
    → after_ready gate x ≡ admitted ready
    → (m : ReadyMessage) × (r : NetReader) × (x ≡ ok (m, r))
unfolding after_ready
ready_read gate ready (ok (m, r)) e = (m, r, refl)
ready_read gate ready (err y) e = absurd (ground arith)

auth_read :
    (gate : Gate) (ready : ReadyMessage) (x : Result (BytesMessage × NetReader))
    → after_auth gate x ≡ admitted ready
    → (a : BytesMessage) × (r2 : NetReader) × (x ≡ ok (a, r2))
      × (m : ReadyMessage) × (r3 : NetReader) × (deserialize_ready_message r2 ≡ ok (m, r3))
unfolding after_auth
auth_read gate ready (ok (a, r2)) e =
    let (m, r3, e3) = ready_read gate ready (deserialize_ready_message r2) (ground arith) in
    (a, r2, refl, m, r3, e3)
auth_read gate ready (err y) e = absurd (ground arith)

version_read :
    (gate : Gate) (ready : ReadyMessage) (x : Result (ℕ × NetReader))
    → after_version gate x ≡ admitted ready
    → (v : ℕ) × (r1 : NetReader) × (x ≡ ok (v, r1))
      × (a : BytesMessage) × (r2 : NetReader) × (deserialize_bytes_message r1 ≡ ok (a, r2))
      × (m : ReadyMessage) × (r3 : NetReader) × (deserialize_ready_message r2 ≡ ok (m, r3))
unfolding after_version
version_read gate ready (ok (v, r1)) e =
    let (a, r2, e2, m, r3, e3) =
      auth_read gate ready (deserialize_bytes_message r1) (ground arith) in
    (v, r1, refl, a, r2, e2, m, r3, e3)
version_read gate ready (err y) e = absurd (ground arith)

fields_read :
    (payload : Bytes) (v : ℕ) (a : BytesMessage) (m : ReadyMessage) (r1 r2 r3 : NetReader)
    → get_u16 (new_reader payload) ≡ ok (v, r1)
    → deserialize_bytes_message r1 ≡ ok (a, r2)
    → deserialize_ready_message r2 ≡ ok (m, r3)
    → request_fields (new_reader payload) ≡ ok ((v, a, m), r3)
fields_read payload v a m r1 r2 r3 e1 e2 e3 =
    let with_ready : ℕ → BytesMessage → Read (ℕ × BytesMessage × ReadyMessage) =
      λ v a. deserialize_ready_message >>= (λ m. return (v, a, m)) in
    let with_auth : ℕ → Read (ℕ × BytesMessage × ReadyMessage) =
      λ v. deserialize_bytes_message >>= with_ready v in
    bind_read get_u16 with_auth e1
    ∙ bind_read deserialize_bytes_message (with_ready v) e2
    ∙ bind_read deserialize_ready_message (λ m. return (v, a, m)) e3

-- Whoever is admitted asked for it with a new enough version and the password of the server, if it wants
-- one, while there was room; neither the player nor the address is banned, and the list in force and the
-- rule on headless clients allow the player.
pub admitted_safe :
    (gate : Gate) (ip payload : Bytes) (ready : ReadyMessage)
    → judge_request gate ip payload ≡ admitted ready
    → let player = ready.player_meta_data_message in
      let mode = gate.config.basis_user_restriction_mode in
      (version : ℕ) × (auth : BytesMessage) × (r : NetReader) × (request_fields (new_reader payload)
        ≡ ok ((version, auth, ready), r))
      × (server_version ≤ version)
      × (gate.config.use_auth ≡ true → password_matches gate.config.password auth.bytes ≡ true)
      × (gate.player_count < limit gate.config)
      × (is_ip_banned ip gate.moderation ≡ false)
      × (is_uuid_banned player.player_uuid gate.moderation ≡ false)
      × (mode ≡ white_list → is_whitelisted player.player_uuid gate.moderation ≡ true)
      × (mode ≡ black_list → is_blacklisted player.player_uuid gate.moderation ≡ false)
      × (gate.disallow_headless ≡ true → is_headless_platform player.player_platform ≡ false)
unfolding judge_request
admitted_safe gate ip payload ready e =
    let after : after_version gate (get_u16 (new_reader payload)) ≡ admitted ready = ground arith in
    let (v, r1, e1, a, r2, e2, m, r3, e3) =
      version_read gate ready (get_u16 (new_reader payload)) after in
    let same : m ≡ ready =
      (first_obstacle-admitted m ready (obstacles gate ip v a m)
        (sym (judge_read gate ip payload v a m r1 r2 r3 e1 e2 e3) ∙ e)).0 in
    let e4 : deserialize_ready_message r2 ≡ ok (ready, r3) =
      e3 ∙ ap (λ (t : ReadyMessage). ok (t, r3)) same in
    let (open_address, (room, (recent, (password, (seen, (unbanned, (white, (black, end)))))))) =
      (first_obstacle-admitted ready ready (obstacles gate ip v a ready)
        (sym (judge_read gate ip payload v a ready r1 r2 r3 e1 e2 e4) ∙ e)).1 in
    (
      v,
      a,
      r3,
      fields_read payload v a ready r1 r2 r3 e1 e2 e4,
      ground arith,
      λ on. ground arith,
      ground arith,
      open_address,
      unbanned,
      λ listed. ground (arith, white, ap is_white_list listed),
      λ listed. ground (arith, black, ap is_black_list listed),
      λ on. ground (arith, seen, on),
    )
