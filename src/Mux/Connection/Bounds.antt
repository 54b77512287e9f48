-- ===== src/Mux/Connection/Bounds.antt =====
-- The buffers of the demultiplexing task stay within the sizes that a header can give.
use rust_cardano_ouroboros_n.Prelude.{
  ℕ, zero, suc, ◌+◌, ◌^◌, ◌<◌, List, [], ◌∷◌, ◌++◌, length, length-append, All, arith,
}
use rust_cardano_ouroboros_n.Prelude.Int.{IsU16}
use rust_cardano_ouroboros_n.Prelude.Words.{flip_top, flip_top-lt}
use rust_cardano_ouroboros_n.Model.{Bytes}
use rust_cardano_ouroboros_n.Mux.{
  Channels, Reader, in_header, in_payload, start_payload, parse_header, read_u16, dispatch,
}

abbrev pub IsByte : ℕ → Type 0
IsByte b = b < 256

-- A header is not complete, and a payload is one byte short at least of a length below 64 KiB.
abbrev pub IsReader : Reader → Type 0
IsReader (in_header header) = (length header < 8) × All IsByte header
IsReader (in_payload idx missing payload) =
    IsU16 idx × (length payload + missing + 1 < 2 ^ 16) × All IsByte payload

pub All-append {ℓ κ} :
    {A : Type ℓ} (P : A → Type κ) (xs ys : List A) → All P xs → All P ys → All P (xs ++ ys)
All-append P [] ys h k = k
All-append P (x ∷ xs) ys (h, hs) k = (h, All-append P xs ys hs k)

start_payload-IsReader :
    (idx n : ℕ) (channels : Channels)
    → IsU16 idx
    → IsU16 n
    → IsReader (start_payload idx n channels).reader
unfolding start_payload
start_payload-IsReader idx zero channels hi hn = (omega arith, tt)
start_payload-IsReader idx (suc n) channels hi hn = (hi, omega arith, tt)

parse_header-IsReader :
    (header : Bytes) (channels : Channels)
    → length header < 9
    → All IsByte header
    → IsReader (parse_header header channels).reader
unfolding parse_header
parse_header-IsReader [] channels lt h = (omega arith, h)
parse_header-IsReader (a ∷ []) channels lt h = (omega arith, h)
parse_header-IsReader (a ∷ b ∷ []) channels lt h = (omega arith, h)
parse_header-IsReader (a ∷ b ∷ c ∷ []) channels lt h = (omega arith, h)
parse_header-IsReader (a ∷ b ∷ c ∷ d ∷ []) channels lt h = (omega arith, h)
parse_header-IsReader (a ∷ b ∷ c ∷ d ∷ e ∷ []) channels lt h = (omega arith, h)
parse_header-IsReader (a ∷ b ∷ c ∷ d ∷ e ∷ f ∷ []) channels lt h = (omega arith, h)
parse_header-IsReader (a ∷ b ∷ c ∷ d ∷ e ∷ f ∷ g ∷ []) channels lt h = (omega arith, h)
parse_header-IsReader (a ∷ b ∷ c ∷ d ∷ e ∷ f ∷ g ∷ k ∷ []) channels lt
      (ha, (hb, (hc, (hd, (he, (hf, (hg, (hk, h)))))))) =
    start_payload-IsReader (flip_top (read_u16 e f)) (read_u16 g k) channels
      (flip_top-lt (read_u16 e f) (omega arith)) (omega arith)
parse_header-IsReader (a ∷ b ∷ c ∷ d ∷ e ∷ f ∷ g ∷ k ∷ l ∷ rest) channels lt h =
    absurd (omega arith)

-- One byte more.
pub dispatch-IsReader :
    (reader : Reader) (channels : Channels) (byte : ℕ)
    → IsReader reader
    → IsByte byte
    → IsReader (dispatch reader channels byte).reader
unfolding dispatch
dispatch-IsReader (in_header header) channels byte (lt, h) hb =
    parse_header-IsReader (header ++ byte ∷ []) channels
      (omega (arith, length-append header (byte ∷ [])))
      (All-append IsByte header (byte ∷ []) h (hb, tt))
dispatch-IsReader (in_payload idx zero payload) channels byte h hb = (omega arith, tt)
dispatch-IsReader (in_payload idx (suc missing) payload) channels byte (hi, lt, h) hb = (
  hi,
  omega (arith, length-append payload (byte ∷ [])),
  All-append IsByte payload (byte ∷ []) h (hb, tt),
)
