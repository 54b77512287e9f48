-- ===== src/BlockFetch/Messages.antt =====
-- Block-fetch messages as CBOR values.
use rust_cardano_ouroboros_n.Prelude.{◌≡◌, refl}
use rust_cardano_ouroboros_n.Prelude.Outcome.{ok}
use rust_cardano_ouroboros_n.Model.{IsPoint}
use rust_cardano_ouroboros_n.Values.{from_vec}
use rust_cardano_ouroboros_n.Prelude.Int.{as_u64-pos}
use rust_cardano_ouroboros_n.BlockFetch.{Message, request_range, client_done, from_iter, to_values}

-- The points of a range have 64-bit slots.
abbrev pub IsMessage : Message → Type 0
IsMessage (request_range first last) = IsPoint first × IsPoint last
IsMessage _ = Unit {0}

-- Every block-fetch message is read back from its values, if the slots of a range fit 64 bits.
pub from_iter-to_values_blockfetch :
    (m : Message) → IsMessage m → from_iter (from_vec (to_values m)) ≡ ok m
unfolding from_iter to_values
from_iter-to_values_blockfetch (request_range first last) (hf, hl) =
    rw (as_u64-pos first.slot hf.slot_range, as_u64-pos last.slot hl.slot_range)
from_iter-to_values_blockfetch client_done h = refl
from_iter-to_values_blockfetch _ h = refl
