-- ===== src/P2p/Pairs.antt =====
-- Pairs of peers as one number, and when a pair is offloaded.
use basis_rust_server.Common.{
  ℕ, ◌+◌, ◌*◌, ◌%◌, ◌^◌, ◌<◌, ◌≡◌, ap, ◌∙◌, true, false, some, leb, ◌==◌, if◌then◌else◌, arith,
  bit_or, Bool-cases, ◌⊎◌, inl, inr,
}
use basis_rust_server.Common.Bits.{bit_or_fields}
use basis_rust_server.Common.Maps.{
  lookup, member, add, nat_key, text_key, lookup-insert_self, member-add, member-discard,
}
use basis_rust_server.P2p.{
  P2pSession, P2pBroker, BasisP2PSignalMessage, pack_pair, pair_of, is_offloaded, unlink,
  forward_and_drop, lose_link, handle_link_lost, report_link, link_reported, handle_link_up,
}

shift_or :
    (lo hi : ℕ)
    → lo < 2 ^ 16
    → hi < 2 ^ 16
    → bit_or (lo * 2 ^ 32 % 2 ^ 64) hi ≡ lo * 4294967296 + hi
shift_or lo hi h k =
    let small : lo * 4294967296 % 18446744073709551616 ≡ lo * 4294967296 = omega arith in
    ap (λ q. bit_or q hi) small ∙ bit_or_fields 32 lo hi (omega arith)

pack_pair_lem :
    (a b : ℕ)
    → a < 2 ^ 16
    → b < 2 ^ 16
    → pack_pair a b ≡ (if leb a b then a * 4294967296 + b else b * 4294967296 + a)
unfolding pack_pair
pack_pair_lem a b ha hb = elim (Bool-cases (leb a b)) [
  | inl e ↦ rw (pack_pair, e) (shift_or a b ha hb)
  | inr e ↦ rw (pack_pair, e) (shift_or b a hb ha)
]

-- Two pairs of peers have one number only if they are the same two peers, in either order.
pack_pair-same :
    (a b c d : ℕ)
    → a < 2 ^ 16
    → b < 2 ^ 16
    → c < 2 ^ 16
    → d < 2 ^ 16
    → (pack_pair a b ≡ pack_pair b a)
      × (pack_pair a b ≡ pack_pair c d → ((a ≡ c) × (b ≡ d)) ⊎ ((a ≡ d) × (b ≡ c)))
pack_pair-same a b c d ha hb hc hd = (
  ground (arith, pack_pair_lem a b ha hb, pack_pair_lem b a hb ha),
  λ e. ground (arith, e, pack_pair_lem a b ha hb, pack_pair_lem c d hc hd),
)

report_link-initiator :
    (s : P2pSession)
    → report_link s.initiator_peer_id s ≡ some (record s { initiator_link_up = true })
unfolding report_link
report_link-initiator s =
    let e : (s.initiator_peer_id == s.initiator_peer_id) ≡ true = ground arith in
    rw (report_link, e)

report_link-target :
    (s : P2pSession)
    → (s.initiator_peer_id == s.target_peer_id) ≡ false
    → report_link s.target_peer_id s ≡ some (record s { target_link_up = true })
unfolding report_link
report_link-target s other =
    let e : (s.target_peer_id == s.target_peer_id) ≡ true = ground arith in
    let f : (s.target_peer_id == s.initiator_peer_id) ≡ false = ground arith in
    rw (report_link, f, e)

handle_link_up-known :
    (sender : ℕ) (m : BasisP2PSignalMessage) (s : P2pSession) (b : P2pBroker)
    → lookup m.session_token b.sessions ≡ some s
    → handle_link_up sender m b ≡ link_reported m.session_token (report_link sender s) b
unfolding handle_link_up
handle_link_up-known sender m s b e = rw (handle_link_up, e)

-- A report of the initiator and then one of the target.
both_links_up :
    (m : BasisP2PSignalMessage) (s : P2pSession) (b : P2pBroker)
    → lookup m.session_token b.sessions ≡ some s
    → (s.initiator_peer_id == s.target_peer_id) ≡ false
    → let after = handle_link_up s.target_peer_id m (handle_link_up s.initiator_peer_id m b) in
      (is_offloaded s.initiator_peer_id s.target_peer_id after ≡ true)
      × ((pair : ℕ)
          → (pair == pair_of s) ≡ false
          → member pair after.offloaded_pairs ≡ member pair b.offloaded_pairs)
unfolding is_offloaded link_reported
both_links_up m s b e other =
    let s1 = record s { initiator_link_up = true } in
    let b1 = link_reported m.session_token (some s1) b in
    let first =
      handle_link_up-known s.initiator_peer_id m s b e
      ∙ ap (λ r. link_reported m.session_token r b) (report_link-initiator s) in
    let second =
      handle_link_up-known s.target_peer_id m s1 b1
        (lookup-insert_self m.session_token s1 b.sessions)
      ∙ ap (λ r. link_reported m.session_token r b1) (report_link-target s1 other) in
    let pairs = if s.target_link_up then add (pair_of s) b.offloaded_pairs else b.offloaded_pairs in
    rw (first, second, is_offloaded, other)
      (
        ground (arith, member-add (pair_of s) (pair_of s) pairs),
        λ pair ne. ground (
          arith,
          ne,
          member-add (pair_of s) pair pairs,
          member-add (pair_of s) pair b.offloaded_pairs,
        ),
      )

-- The same with the reports in the other order.
both_links_up_again :
    (m : BasisP2PSignalMessage) (s : P2pSession) (b : P2pBroker)
    → lookup m.session_token b.sessions ≡ some s
    → (s.initiator_peer_id == s.target_peer_id) ≡ false
    → let after = handle_link_up s.initiator_peer_id m (handle_link_up s.target_peer_id m b) in
      (is_offloaded s.initiator_peer_id s.target_peer_id after ≡ true)
      × ((pair : ℕ)
          → (pair == pair_of s) ≡ false
          → member pair after.offloaded_pairs ≡ member pair b.offloaded_pairs)
unfolding is_offloaded link_reported
both_links_up_again m s b e other =
    let s1 = record s { target_link_up = true } in
    let b1 = link_reported m.session_token (some s1) b in
    let first =
      handle_link_up-known s.target_peer_id m s b e
      ∙ ap (λ r. link_reported m.session_token r b) (report_link-target s other) in
    let second =
      handle_link_up-known s.initiator_peer_id m s1 b1
        (lookup-insert_self m.session_token s1 b.sessions)
      ∙ ap (λ r. link_reported m.session_token r b1) (report_link-initiator s1) in
    let pairs =
      if s.initiator_link_up then add (pair_of s) b.offloaded_pairs else b.offloaded_pairs in
    rw (first, second, is_offloaded, other)
      (
        ground (arith, member-add (pair_of s) (pair_of s) pairs),
        λ pair ne. ground (
          arith,
          ne,
          member-add (pair_of s) pair pairs,
          member-add (pair_of s) pair b.offloaded_pairs,
        ),
      )

-- A session of two different peers loses its link, and its pair is not offloaded any more. One report
-- for the token, of any peer, does not bring it back; reports of both peers, in either order, do.
-- This is about reports that follow the loss with nothing between, and for this token. No other pair
-- becomes offloaded or stops being so.
pub lost_link :
    (sender : ℕ) (m : BasisP2PSignalMessage) (s : P2pSession) (b : P2pBroker)
    → lookup m.session_token b.sessions ≡ some s
    → (s.initiator_peer_id == s.target_peer_id) ≡ false
    → let i = s.initiator_peer_id in
      let t = s.target_peer_id in
      let lost = (handle_link_lost sender m b).0 in
      (is_offloaded i t lost ≡ false)
      × ((reporter : ℕ) → is_offloaded i t (handle_link_up reporter m lost) ≡ false)
      × (is_offloaded i t (handle_link_up t m (handle_link_up i m lost)) ≡ true)
      × (is_offloaded i t (handle_link_up i m (handle_link_up t m lost)) ≡ true)
      × ((pair : ℕ)
          → (pair == pair_of s) ≡ false
          → (member pair lost.offloaded_pairs ≡ member pair b.offloaded_pairs)
            × (member pair (handle_link_up t m (handle_link_up i m lost)).offloaded_pairs
                ≡ member pair b.offloaded_pairs)
            × (member pair (handle_link_up i m (handle_link_up t m lost)).offloaded_pairs
                ≡ member pair b.offloaded_pairs))
unfolding is_offloaded link_reported handle_link_lost lose_link forward_and_drop unlink report_link
lost_link sender m s b e other =
    let b1 = lose_link m.session_token (some s) b in
    let lost : (handle_link_lost sender m b).0 ≡ b1 = rw (handle_link_lost, e) in
    let known = lookup-insert_self m.session_token (unlink s) b.sessions in
    let gone = member-discard (pair_of s) (pair_of s) b.offloaded_pairs in
    let (up, others) = both_links_up m (unlink s) b1 known other in
    let (up', others') = both_links_up_again m (unlink s) b1 known other in
    rw lost (
      ground (arith, gone),
      λ reporter. rw (handle_link_up-known reporter m (unlink s) b1 known) (ground (arith, gone)),
      up,
      up',
      λ pair ne.
          let kept : member pair b1.offloaded_pairs ≡ member pair b.offloaded_pairs =
            ground (arith, ne, member-discard (pair_of s) pair b.offloaded_pairs) in
          (kept, others pair ne ∙ kept, others' pair ne ∙ kept),
    )
