-- ===== src/ChainSync/Messages.antt =====
-- Chain-sync messages as CBOR values.
use rust_cardano_ouroboros_n.Prelude.{
  ◌≡◌, refl, sym, ap, ◌∙◌, List, [], ◌∷◌, ◌++◌, All, append_assoc, append-nil, some, arith,
}
use rust_cardano_ouroboros_n.Prelude.Int.{pos, as_u64-pos, as_i64-of_IsI64}
use rust_cardano_ouroboros_n.Prelude.Outcome.{ok, err, array_required, end_required}
use rust_cardano_ouroboros_n.Model.{Point, IsPoint, IsTip}
use rust_cardano_ouroboros_n.Cbor.{Value, Items, nil, ◌▸◌, integer, array}
use rust_cardano_ouroboros_n.Values.{from_vec, read_array}
use rust_cardano_ouroboros_n.ChainSync.{
  Message, request_next, roll_forward, roll_backward, find_intersect, intersect_found,
  intersect_not_found, from_iter, to_values, points_loop, points_to_values,
}

-- The numbers in a message have the ranges of their Rust types.
abbrev pub IsMessage : Message → Type 0
IsMessage (roll_forward header tip) = IsTip tip
IsMessage (roll_backward point tip) = IsPoint point × IsTip tip
IsMessage (find_intersect points) = All IsPoint points
IsMessage (intersect_found point tip) = IsPoint point × IsTip tip
IsMessage (intersect_not_found tip) = IsTip tip
IsMessage _ = Unit {0}

-- The values of `points`, and one more behind them.
abbrev pub points_and : List Point → Items → Items
points_and [] more = more
points_and (p ∷ points) more =
    array (integer (pos p.slot) ▸ Value.bytes p.hash ▸ nil) ▸ points_and points more

points_loop-points_and :
    (ps acc : List Point) (more : Items)
    → All IsPoint ps
    → points_loop acc (points_and ps more) ≡ points_loop (acc ++ ps) more
unfolding points_loop
points_loop-points_and [] acc more h = rw append-nil
points_loop-points_and (p ∷ ps) acc more (hp, hs) =
    rw (as_u64-pos p.slot hp.slot_range)
      (points_loop-points_and ps (acc ++ p ∷ []) more hs ∙ rw append_assoc)

points_and-nil : (ps : List Point) → points_and ps nil ≡ points_to_values ps
points_and-nil [] = refl
points_and-nil (p ∷ ps) =
    ap (λ r. array (integer (pos p.slot) ▸ Value.bytes p.hash ▸ nil) ▸ r) (points_and-nil ps)

points_loop-points_to_values :
    (ps : List Point) → All IsPoint ps → points_loop [] (points_to_values ps) ≡ (ok ps, nil)
unfolding points_loop
points_loop-points_to_values ps h =
    ap (points_loop []) (sym (points_and-nil ps)) ∙ points_loop-points_and ps [] nil h

-- Every chain-sync message whose numbers are in range is read back from its values.
pub from_iter-to_values_chainsync :
    (m : Message) → IsMessage m → from_iter (from_vec (to_values m)) ≡ ok m
unfolding from_iter to_values
from_iter-to_values_chainsync request_next h = refl
from_iter-to_values_chainsync (roll_forward header tip) h =
    rw (as_u64-pos tip.slot_number h.slot_range, as_i64-of_IsI64 tip.block_number h.block_range)
from_iter-to_values_chainsync (roll_backward point tip) (hp, ht) = rw (
  as_u64-pos point.slot hp.slot_range,
  as_u64-pos tip.slot_number ht.slot_range,
  as_i64-of_IsI64 tip.block_number ht.block_range,
)
from_iter-to_values_chainsync (intersect_found point tip) (hp, ht) = rw (
  as_u64-pos point.slot hp.slot_range,
  as_u64-pos tip.slot_number ht.slot_range,
  as_i64-of_IsI64 tip.block_number ht.block_range,
)
from_iter-to_values_chainsync (intersect_not_found tip) h =
    rw (as_u64-pos tip.slot_number h.slot_range, as_i64-of_IsI64 tip.block_number h.block_range)
from_iter-to_values_chainsync (find_intersect points) h =
    ground (arith, points_loop-points_to_values points h)
from_iter-to_values_chainsync _ h = refl

-- The loop that reads the points of `FindIntersect` takes the value on which it ends: one value behind
-- the points that is no array is passed over in silence, and only a second one is an error.
pub from_iter-trailing :
    (ps : List Point) (v : Value)
    → All IsPoint ps
    → read_array (some v) ≡ err array_required
    → (from_iter (integer (pos 4) ▸ array (points_and ps (v ▸ nil)) ▸ nil) ≡ ok (find_intersect ps))
      × ((w : Value) (rest : Items)
          → from_iter (integer (pos 4) ▸ array (points_and ps (v ▸ w ▸ rest)) ▸ nil)
            ≡ err end_required)
unfolding from_iter points_loop
from_iter-trailing ps v h e = (
  ground (arith, points_loop-points_and ps [] (v ▸ nil) h),
  λ w rest. ground (arith, points_loop-points_and ps [] (v ▸ w ▸ rest) h),
)
