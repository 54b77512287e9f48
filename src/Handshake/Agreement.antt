-- ===== src/Handshake/Agreement.antt =====
-- A client and a server that talk to one another.
use rust_cardano_ouroboros_n.Prelude.{
  subst, append-nil, ℕ, ◌+◌, ◌<◌, ◌≡◌, ◌≢◌, ◌⊎◌, inl, inr, refl, sym, ap, ◌∙◌, arith, List, [], ◌∷◌,
  All, length, concat, last?, some, none, true, Bool-cases,
}
use rust_cardano_ouroboros_n.Prelude.Int.{IsU32, pos, negsuc}
use rust_cardano_ouroboros_n.Prelude.Outcome.{Outcome, ok, err, handshake_failed}
use rust_cardano_ouroboros_n.Model.{Bytes}
use rust_cardano_ouroboros_n.Cbor.{Codec, IsCodec, Items, Value, integer, nil, ◌▸◌}
use rust_cardano_ouroboros_n.Protocol.{client, server}
use rust_cardano_ouroboros_n.Protocol.Stream.{encode, IsWritable}
use rust_cardano_ouroboros_n.Handshake.{
  Handshake, propose, proposals, find_version, Negotiation, negotiated, outcome_of, negotiate,
}
use rust_cardano_ouroboros_n.Handshake.Versions.{Version, n2n, c2n, same_version}
use rust_cardano_ouroboros_n.Handshake.Versions.RoundTrip.{FitsWord}
use rust_cardano_ouroboros_n.Handshake.Messages.{
  IsOrdered, entries_of, accept_items, to_values-propose_versions, from_iter-propose_versions,
}
use rust_cardano_ouroboros_n.Handshake.Machine.{ready, negotiate-client, negotiate_server}

-- A version is one of a list.
abbrev pub Has : Version → List Version → Type 0
Has v [] = ⊥
Has v (w ∷ ws) = (w ≡ v) ⊎ Has v ws

same_version_iff :
    (a b : Version) → ((same_version a b ≡ true) → a ≡ b) × ((a ≡ b) → same_version a b ≡ true)
same_version_iff (n2n (pos m)) (n2n (pos n)) = ground arith
same_version_iff (n2n (negsuc m)) (n2n (negsuc n)) = ground arith
same_version_iff (c2n (pos m)) (c2n (pos n)) = ground arith
same_version_iff (c2n (negsuc m)) (c2n (negsuc n)) = ground arith
same_version_iff (n2n (pos m)) (n2n (negsuc n)) = ground arith
same_version_iff (n2n (negsuc m)) (n2n (pos n)) = ground arith
same_version_iff (c2n (pos m)) (c2n (negsuc n)) = ground arith
same_version_iff (c2n (negsuc m)) (c2n (pos n)) = ground arith
same_version_iff (n2n m) (c2n n) = ((λ e. cc), (λ e. cc))
same_version_iff (c2n m) (n2n n) = ((λ e. cc), (λ e. cc))

-- If the list has the wanted version, then that is what is found, and if not, then nothing is found.
pub find_version-Has :
    (v : Version) (vs : List Version)
    → (Has v vs → find_version v vs ≡ some v) × (¬ Has v vs → find_version v vs ≡ none)
unfolding find_version
find_version-Has v [] = ((λ h. absurd h), (λ n. refl))
find_version-Has v (w ∷ ws) = elim (Bool-cases (same_version w v)) [
  | inl e ↦
      let same = (same_version_iff w v).0 e in
      ((λ h. rw e (ap some same)), (λ n. absurd (n (inl same))))
  | inr e ↦
      let (found, missing) = find_version-Has v ws in
      (
        (λ h. rw e (elim h [ inl q ↦ cc (e, (same_version_iff w v).1 q) | inr q ↦ found q ])),
        (λ n. rw e (missing (λ q. n (inr q)))),
      )
]

-- What stands for the proposal of some versions.
abbrev pub proposal_items : List Version → ℕ → Items
proposal_items versions magic =
    integer (pos 0) ▸ Value.map (entries_of (proposals versions magic)) ▸ nil

-- What `negotiate` returned, if it returned.
abbrev pub Returns : Negotiation → Outcome (Version × ℕ) → Type 0
Returns (negotiated r s ch) result = r ≡ result
Returns _ result = ⊥

module _ (codec : Codec) (laws : IsCodec codec) (c s : Handshake) (v : Version)
    (to_server to_client : List Bytes) (fuel : ℕ) where
  -- A fresh client, whose versions are supported ones in the strict order of their keys, and a fresh
  -- server with the same 32-bit magic exchange their messages, cut into any pieces that are not
  -- empty on the way; the encoder accepts both messages, the last version of the server fits 16
  -- bits, and fuel is two turns more than all pieces. The server always returns the last of its
  -- versions. The client returns the same if that is one of the versions that it proposed; if not,
  -- it fails while the server does not.
  pub negotiate_agreement :
      c.role ≡ client
      → c.state ≡ propose
      → s.role ≡ server
      → s.state ≡ propose
      → c.network_magic ≡ s.network_magic
      → IsU32 s.network_magic
      → IsOrdered (proposals c.versions c.network_magic)
      → last? s.versions ≡ some v
      → FitsWord v
      → IsWritable codec (proposal_items c.versions c.network_magic)
      → IsWritable codec (accept_items v s.network_magic)
      → All (λ piece. piece ≢ []) to_server
      → All (λ piece. piece ≢ []) to_client
      → concat to_server ≡ encode codec (proposal_items c.versions c.network_magic)
      → concat to_client ≡ encode codec (accept_items v s.network_magic)
      → length to_server + length to_client + 1 < fuel
      → Returns (negotiate codec fuel s (ready to_server [])) (ok (v, s.network_magic))
        × (Has v c.versions
            → Returns (negotiate codec fuel c (ready to_client [])) (ok (v, s.network_magic)))
        × (¬ Has v c.versions
            → Returns (negotiate codec fuel c (ready to_client [])) (err handshake_failed))
  negotiate_agreement cr cs sr ss magics hm o l fv wp wa ns nc ps pc lt = (
    by_server,
    (λ h. by_client (rw ((find_version-Has v c.versions).0 h))),
    (λ h. by_client (rw ((find_version-Has v c.versions).1 h))),
  )
    where
      by_server : Returns (negotiate codec fuel s (ready to_server [])) (ok (v, s.network_magic))
      by_server =
          subst (λ x. Returns x (ok (v, s.network_magic)))
            (sym (
              ap (λ inbox. negotiate codec fuel s (ready inbox [])) (sym (append-nil to_server))
              ∙ negotiate_server codec laws s to_server [] [] fuel
                  (proposal_items c.versions c.network_magic) _ v sr ss l fv
                  (from_iter-propose_versions (proposals c.versions c.network_magic) o) wp wa ns ps
                  (omega arith)))
            refl

      by_client :
          {r : Outcome (Version × ℕ)}
          → outcome_of (find_version v c.versions) s.network_magic ≡ r
          → Returns (negotiate codec fuel c (ready to_client [])) r
      by_client {r} e =
          subst (λ x. Returns x r)
            (sym (
              ap (λ inbox. negotiate codec fuel c (ready inbox [])) (sym (append-nil to_client))
              ∙ negotiate-client codec laws c to_client [] [] fuel
                  (proposal_items c.versions c.network_magic) v cr cs
                  (to_values-propose_versions codec laws _ o, wp) fv (rw magics hm) (rw magics wa)
                  nc (rw magics pc) (omega arith)))
            (rw magics e)
