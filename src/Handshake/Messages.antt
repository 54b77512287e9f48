-- ===== src/Handshake/Messages.antt =====
-- Handshake messages as CBOR values.
use Prim.Native.Nat.{compare, Ordering}
use rust_cardano_ouroboros_n.Prelude.{
  false, ℕ, ◌<◌, ◌≡◌, refl, sym, ap, ◌∙◌, arith, List, [], ◌∷◌, ◌++◌, All, append_assoc, append-nil,
}
use rust_cardano_ouroboros_n.Prelude.Int.{pos, as_u16-pos, as_u32-pos, IsU32}
use rust_cardano_ouroboros_n.Prelude.Outcome.{ok, err, integer_required}
use rust_cardano_ouroboros_n.Cbor.{
  Codec, IsCodec, Value, Items, nil, ◌▸◌, array, bool, Entries, no_entries, entry, integer,
}
use rust_cardano_ouroboros_n.Values.{from_vec}
use rust_cardano_ouroboros_n.Handshake.{
  Message, propose_versions, accept_version, refuse, from_iter, to_values, read_versions, collect,
  insert_entry,
}
use rust_cardano_ouroboros_n.Handshake.Versions.{Version}
use rust_cardano_ouroboros_n.Handshake.Versions.RoundTrip.{
  IsSupported, FitsWord, key, parameters, version_to_values-of_IsSupported, version_of_values-key,
  to_u16-key, from_u16-key, key-lt,
}

-- Supported versions in the strict order of their keys, with 32-bit magics.
abbrev pub IsOrdered : List (Version × ℕ) → Type 0
IsOrdered [] = Unit {0}
IsOrdered ((v, magic) ∷ vs) =
    IsSupported v × IsU32 magic × All (λ w. key v < key w.0) vs × IsOrdered vs

-- The entries of a proposal.
abbrev pub entries_of : List (Version × ℕ) → Entries
entries_of [] = no_entries
entries_of ((v, magic) ∷ vs) = entry (integer (pos (key v))) (parameters v magic) (entries_of vs)

read_versions-entries_of :
    (vs : List (Version × ℕ)) → IsOrdered vs → read_versions (entries_of vs) ≡ ok vs
unfolding read_versions
read_versions-entries_of [] h = refl
read_versions-entries_of ((v, magic) ∷ vs) (hv, hm, ho, hs) =
    rw (version_of_values-key v magic hv hm, read_versions-entries_of vs hs)

module _ (codec : Codec) (laws : IsCodec codec) where
  insert_entry-last :
      (us : List (Version × ℕ)) (v : Version) (magic : ℕ)
      → All (λ u. key u.0 < key v) us
      → insert_entry codec.key_compare (integer (pos (key v))) (parameters v magic) (entries_of us)
        ≡ entries_of (us ++ (v, magic) ∷ [])
  unfolding insert_entry
  insert_entry-last [] v magic h = refl
  insert_entry-last ((u, m) ∷ us) v magic (hu, hs) =
      let greater : compare (key v) (key u) ≡ Ordering.gt = ground arith in
      rw (laws.key_order (key v) (key u), greater)
        (ap (entry (integer (pos (key u))) (parameters u m)) (insert_entry-last us v magic hs))

  above_snoc :
      (us vs : List (Version × ℕ)) (v : Version) (magic : ℕ)
      → All (λ w. All (λ u. key u.0 < key w.0) us) vs
      → All (λ w. key v < key w.0) vs
      → All (λ w. All (λ u. key u.0 < key w.0) (us ++ (v, magic) ∷ [])) vs
  above_snoc us [] v magic h o = tt
  above_snoc us (w ∷ vs) v magic (hw, hs) (ow, os) = (snoc us hw, above_snoc us vs v magic hs os)
    where
      snoc :
          (us : List (Version × ℕ))
          → All (λ u. key u.0 < key w.0) us
          → All (λ u. key u.0 < key w.0) (us ++ (v, magic) ∷ [])
      snoc [] h = (ow, tt)
      snoc (u ∷ us) (h, hs) = (h, snoc us hs)

  collect-entries_of :
      (us vs : List (Version × ℕ))
      → All (λ v. All (λ u. key u.0 < key v.0) us) vs
      → IsOrdered vs
      → collect codec.key_compare vs (entries_of us) ≡ ok (entries_of (us ++ vs))
  unfolding collect
  collect-entries_of us [] h o = ap (λ l. ok (entries_of l)) (sym (append-nil us))
  collect-entries_of us ((v, magic) ∷ vs) (hv, hs) (sv, hm, ho, os) =
      rw (version_to_values-of_IsSupported v magic sv, insert_entry-last us v magic hv)
        (collect-entries_of (us ++ (v, magic) ∷ []) vs (above_snoc us vs v magic hs ho) os
          ∙ rw append_assoc)

  pub to_values-propose_versions :
      (vs : List (Version × ℕ))
      → IsOrdered vs
      → to_values codec.key_compare (propose_versions vs)
        ≡ ok (integer (pos 0) ▸ Value.map (entries_of vs) ▸ nil)
  unfolding to_values
  to_values-propose_versions vs h = rw (collect-entries_of [] vs (above_nothing vs) h)
    where
      above_nothing : (vs : List (Version × ℕ)) → All (λ w. Unit {0}) vs
      above_nothing [] = tt
      above_nothing (v ∷ vs) = (tt, above_nothing vs)

pub from_iter-propose_versions :
    (vs : List (Version × ℕ))
    → IsOrdered vs
    → from_iter (integer (pos 0) ▸ Value.map (entries_of vs) ▸ nil) ≡ ok (propose_versions vs)
unfolding from_iter
from_iter-propose_versions vs h = ground (arith, read_versions-entries_of vs h)

-- What stands for an accepted version.
abbrev pub accept_items : Version → ℕ → Items
accept_items v magic =
    integer (pos 1) ▸ integer (pos (key v)) ▸ array (integer (pos magic) ▸ bool false ▸ nil) ▸ nil

pub to_values-accept_version :
    (codec : Codec) (v : Version) (magic : ℕ)
    → FitsWord v
    → to_values codec.key_compare (accept_version v magic) ≡ ok (accept_items v magic)
unfolding to_values
to_values-accept_version codec v magic h = rw (to_u16-key v h)

pub from_iter-accept_items :
    (v : Version) (magic : ℕ)
    → FitsWord v
    → IsU32 magic
    → from_iter (accept_items v magic) ≡ ok (accept_version v magic)
unfolding from_iter
from_iter-accept_items v magic h hm =
    rw (as_u16-pos (key v) (key-lt v h), as_u32-pos magic hm, from_u16-key v h)

-- What `from_iter` can read back: ordered proposals, and an accepted version that fits 16 bits.
abbrev pub IsMessage : Message → Type 0
IsMessage (propose_versions vs) = IsOrdered vs
IsMessage (accept_version v magic) = FitsWord v × IsU32 magic
IsMessage refuse = ⊥

-- A proposal of supported versions in the strict order of their keys, and the acceptance of a version
-- below 2 ^ 15, are written, and what is written is read back as the same message.
pub from_iter-to_values_handshake :
    (codec : Codec) (laws : IsCodec codec) (m : Message)
    → IsMessage m
    → (values : Items) × (to_values codec.key_compare m ≡ ok values)
      × (from_iter (from_vec values) ≡ ok m)
from_iter-to_values_handshake codec laws (propose_versions vs) h =
    (_, to_values-propose_versions codec laws vs h, from_iter-propose_versions vs h)
from_iter-to_values_handshake codec laws (accept_version v magic) (hv, hm) = (
  accept_items v magic,
  to_values-accept_version codec v magic hv,
  from_iter-accept_items v magic hv hm,
)
from_iter-to_values_handshake codec laws refuse h = absurd h

-- A refusal is written under the tag of an acceptance, so that its reader takes the reason for the
-- version: it is never read back, and its reader fails.
pub from_iter-refuse :
    (codec : Codec)
    → (values : Items) × (to_values codec.key_compare refuse ≡ ok values)
      × (from_iter (from_vec values) ≡ err integer_required)
unfolding to_values from_iter
from_iter-refuse codec = (_, refl, refl)
