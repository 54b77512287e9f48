-- ===== src/Programs/Local/Examples.antt =====
-- A concrete run of `local`, and the theorem at it.
use Prim.Native.String.{String}
use rust_cardano_ouroboros_n.Prelude.{◌≡◌, refl, inl, [], ◌∷◌, take, drop, if◌then◌else◌, arith}
use rust_cardano_ouroboros_n.Model.{Bytes}
use rust_cardano_ouroboros_n.Cbor.Sample.{sample, sample-IsCodec}
use rust_cardano_ouroboros_n.Mux.Connect.{connects, refuses}
use rust_cardano_ouroboros_n.Mux.Connect.Sample.{clock, clock-IsTimeout}
use rust_cardano_ouroboros_n.Protocol.Stream.{encode}
use rust_cardano_ouroboros_n.Handshake.Versions.{Version}
use rust_cardano_ouroboros_n.Handshake.Messages.{accept_items}
use rust_cardano_ouroboros_n.Handshake.Builder.{with_clients, newest}
use rust_cardano_ouroboros_n.Programs.{Config, finished}
use rust_cardano_ouroboros_n.Programs.Local.{Node, socket_path, main, accepts, main-Meets}
use text.Mathlib.Text.{◌==◌}

abbrev cfg : Config
cfg = record {
  magic = 9;
  byron_mainnet = record { slot = 1; hash = [] };
  byron_testnet = record { slot = 2; hash = [] };
  byron_guild = record { slot = 3; hash = [] };
}

abbrev version : Version
version = newest with_clients

abbrev bytes : Bytes
bytes = encode sample (accept_items version 9)

-- Only behind `node.sock` is a node.
abbrev files : String → Node
files path =
    if path == "node.sock"
    then record { attempt = connects 20; inbox = take 4 bytes ∷ drop 4 bytes ∷ [] }
    else record { attempt = refuses 20; inbox = [] }

main-Meets_example : main sample clock files 100 cfg 4 ("local" ∷ "node.sock" ∷ []) ≡ finished tt
unfolding socket_path
main-Meets_example =
    main-Meets sample clock sample-IsCodec clock-IsTimeout files 100 cfg 4
      ("local" ∷ "node.sock" ∷ []) (finished tt) (omega arith) refl (omega arith)
      (accepts 20 version refl (omega arith)
        (record {
          fits = omega arith;
          writable = refl;
          full = ((λ e. cc), ((λ e. cc), tt));
          bytes = refl;
          enough = omega arith;
        })
        (inl refl))
