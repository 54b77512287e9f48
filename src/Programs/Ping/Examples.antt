-- ===== src/Programs/Ping/Examples.antt =====
-- A concrete run of `ping`, and the theorem at it.
use Prim.Native.String.{String}
use rust_cardano_ouroboros_n.Prelude.{
  ◌≡◌, refl, inl, inr, [], ◌∷◌, true, some, take, drop, if◌then◌else◌, arith,
}
use rust_cardano_ouroboros_n.Prelude.Int.{pos}
use rust_cardano_ouroboros_n.Prelude.Outcome.{ok, could_not_connect}
use rust_cardano_ouroboros_n.Model.{Bytes}
use rust_cardano_ouroboros_n.Cbor.Sample.{sample, sample-IsCodec}
use rust_cardano_ouroboros_n.Mux.Connect.{connects, hangs, never_answers}
use rust_cardano_ouroboros_n.Mux.Connect.Sample.{clock, clock-IsTimeout}
use rust_cardano_ouroboros_n.Protocol.Stream.{encode}
use rust_cardano_ouroboros_n.Handshake.Versions.{n2n}
use rust_cardano_ouroboros_n.Handshake.Messages.{accept_items}
use rust_cardano_ouroboros_n.Programs.Ping.{
  Host, success, failure, main, no_stream, Welcomes, no_connection, connected, main-AllLogs,
}
use text.Mathlib.Text.{◌==◌}

abbrev bytes : Bytes
bytes = encode sample (accept_items (n2n (pos 7)) 9)

-- It takes one second and a half to give a stream.
abbrev slow : Host
slow = record {
  attempt = connects 1500000;
  nodelay = true;
  handshake_time = 70000;
  inbox = take 9 bytes ∷ drop 9 bytes ∷ [];
}

abbrev network : String → Host
network name = if name == "gone" then record slow { attempt = hangs } else slow

slow-Welcomes : Welcomes sample clock 9 4 slow (n2n (pos 7))
slow-Welcomes = record {
  time = 1500000;
  stream_at = refl;
  in_time = omega arith;
  set_up = refl;
  fits = omega arith;
  writable = refl;
  full = ((λ e. cc), ((λ e. cc), tt));
  bytes = refl;
  enough = omega arith;
}

main-AllLogs_example :
    main sample clock 9 4 network 100 "host" ("ping" ∷ "slow" ∷ "gone" ∷ [])
    ≡ ok (some (success "slow" 0 70) ∷ some (failure "gone" could_not_connect) ∷ [])
main-AllLogs_example =
    main-AllLogs sample clock 9 4 sample-IsCodec clock-IsTimeout (omega arith) refl network 100
      "host" "ping" ("slow" ∷ "gone" ∷ [])
      (some (success "slow" 0 70) ∷ some (failure "gone" could_not_connect) ∷ [])
      (
        connected (n2n (pos 7)) slow-Welcomes (inr (inl refl)),
        (no_connection (no_stream never_answers), tt),
      )
