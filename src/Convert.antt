-- ===== src/Convert.antt =====
-- src/protocols.rs: points and tips as CBOR values, and back.
pub mod RoundTrip
use rust_cardano_ouroboros_n.Prelude.Int.{pos, as_u64, as_i64}
use rust_cardano_ouroboros_n.Prelude.Outcome.{Outcome}
use rust_cardano_ouroboros_n.Model.{Point, Tip}
use rust_cardano_ouroboros_n.Cbor.{Items, nil, ◌▸◌, integer, bytes, array}
use rust_cardano_ouroboros_n.Values.{
  Cursor, ◌>>=◌, ◌>>◌, pure, lift, consume, next_array, next_integer, next_bytes, end,
}

unfoldable pub point_to_vec : Point → Items
point_to_vec point = integer (pos point.slot) ▸ bytes point.hash ▸ nil

read_point : Cursor Point
unfolding next_integer next_bytes end
read_point = do
  slot ← next_integer
  hash ← next_bytes
  end
  pure (record { slot = as_u64 slot; hash = hash })

-- `TryInto<Point> for Values`.
unfoldable pub point_of_values : Items → Outcome Point
unfolding read_point
point_of_values = consume read_point

unfoldable pub tip_to_vec : Tip → Items
tip_to_vec tip =
    array (integer (pos tip.slot_number) ▸ bytes tip.hash ▸ nil) ▸ integer tip.block_number ▸ nil

-- The slot and the hash of a tip.
read_tip_info : Cursor Point
unfolding next_integer next_bytes end
read_tip_info = do
  slot ← next_integer
  hash ← next_bytes
  end
  pure (record { slot = as_u64 slot; hash = hash })

read_tip : Cursor Tip
unfolding next_array next_integer end read_tip_info
read_tip = do
  tip_info_self ← next_array
  info ← lift (consume read_tip_info tip_info_self)
  block_number ← next_integer
  end
  pure (record { block_number = as_i64 block_number; slot_number = info.slot; hash = info.hash })

-- `TryInto<Tip> for Values`.
unfoldable pub tip_of_values : Items → Outcome Tip
unfolding read_tip
tip_of_values = consume read_tip

-- `array.array()?.try_into()?` for a point and for a tip.
unfoldable pub next_point : Cursor Point
unfolding next_array point_of_values
next_point = do values ← next_array; lift (point_of_values values)

unfoldable pub next_tip : Cursor Tip
unfolding next_array tip_of_values
next_tip = do values ← next_array; lift (tip_of_values values)
