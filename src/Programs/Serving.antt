-- ===== src/Programs/Serving.antt =====
-- examples/server.rs: the loop that serves one client after the other.
mod Examples
use rust_cardano_ouroboros_n.Prelude.{
  ℕ, zero, suc, ◌+◌, ◌-◌, ◌<◌, ◌≡◌, ◌≢◌, refl, sym, ap, ◌∙◌, inl, List, [], ◌∷◌, ◌++◌, append-nil,
  All, length, concat, none, some, arith,
}
use rust_cardano_ouroboros_n.Prelude.Int.{IsU32, pos}
use rust_cardano_ouroboros_n.Prelude.Outcome.{Outcome, ok, err, panic, Error}
use rust_cardano_ouroboros_n.Model.{Bytes}
use rust_cardano_ouroboros_n.Cbor.{Codec, IsCodec, Items}
use rust_cardano_ouroboros_n.Protocol.{Consumed, server, handle, receive_bytes}
use rust_cardano_ouroboros_n.Protocol.Stream.{encode, IsWritable}
use rust_cardano_ouroboros_n.Protocol.Receive.{Hears, receive_bytes-encode_all}
use rust_cardano_ouroboros_n.Protocol.Duplex.{go_on, execute-turn, turn_receive, after_receive}
use rust_cardano_ouroboros_n.Handshake.{
  Handshake, Message, build, channel_id, agency, from_iter, protocol, negotiate, negotiated,
  Negotiation, after_execute,
}
use rust_cardano_ouroboros_n.Handshake.Versions.{n2n}
use rust_cardano_ouroboros_n.Handshake.Messages.{accept_items}
use rust_cardano_ouroboros_n.Handshake.Machine.{ready, negotiate_server}
use rust_cardano_ouroboros_n.Handshake.Refusal.{receive_bytes-unreadable}
use rust_cardano_ouroboros_n.Handshake.Builder.{with_peers, fresh}
use rust_cardano_ouroboros_n.Programs.{
  Config, Ended, finished, failed, waits, panics, out_of_fuel, after_build, after_negotiate,
  negotiate_as, peer_builder, serve,
}

-- How far the loop has come: how many clients it has served, and what it does now. It waits for the next
-- client, or for a payload of the current one, or it has panicked.
pub data Loop : Type 0 where
  listens awaits_client crashed stuck : ℕ → Loop

abbrev pub one_more : Loop → Loop
one_more (listens n) = listens (suc n)
one_more (awaits_client n) = awaits_client (suc n)
one_more (crashed n) = crashed (suc n)
one_more (stuck n) = stuck (suc n)

abbrev after_handle : {A : Type 0} → Loop → Ended A → Loop
after_handle later (finished v) = one_more later
after_handle later (failed e) = crashed 0
after_handle later waits = awaits_client 0
after_handle later panics = crashed 0
after_handle later out_of_fuel = stuck 0

-- `serve`, on the payloads of the clients that connect: `handle(socket, &cfg).await.unwrap()`.
unfoldable pub serve_all : Codec → Config → ℕ → List (List Bytes) → Loop
serve_all codec cfg fuel [] = listens 0
serve_all codec cfg fuel (inbox ∷ clients) =
    after_handle (serve_all codec cfg fuel clients) (serve codec cfg fuel (ready inbox []))

abbrev pub many_more : ℕ → Loop → Loop
many_more zero later = later
many_more (suc n) later = one_more (many_more n later)

module _ (codec : Codec) (laws : IsCodec codec) (cfg : Config) (fuel : ℕ) where
  -- A client that sends a message that can be read, in any pieces that are not empty.
  pub record Asks (inbox : List Bytes) : Type 0 where
    pub values : Items
    pub message : Message
    pub readable : from_iter values ≡ ok message
    pub writable : IsWritable codec values
    pub full : All (λ piece. piece ≢ []) inbox
    pub bytes : concat inbox ≡ encode codec values
    pub enough : length inbox + 1 < fuel

  -- A client that sends, in one payload, values that are no message.
  pub record Babbles (inbox : List Bytes) : Type 0 where
    pub values : Items
    pub error : Error
    pub unreadable : from_iter values ≡ err error
    pub writable : IsWritable codec values
    pub bytes : inbox ≡ encode codec values ∷ []

  abbrev new_server : Handshake
  new_server = fresh with_peers cfg.magic server

  serve-negotiate :
      (inbox : List Bytes)
      → serve codec cfg fuel (ready inbox [])
        ≡ after_negotiate (negotiate codec fuel new_server (ready inbox []))
  unfolding serve negotiate_as build channel_id peer_builder
  serve-negotiate inbox = refl

  serve-Asks :
      (inbox : List Bytes)
      → IsWritable codec (accept_items (n2n (pos 7)) cfg.magic)
      → Asks inbox
      → serve codec cfg fuel (ready inbox []) ≡ finished (n2n (pos 7), cfg.magic)
  serve-Asks inbox wa a =
      serve-negotiate inbox
      ∙ ap after_negotiate (
          ap (λ l. negotiate codec fuel new_server (ready l [])) (sym (append-nil inbox))
          ∙ negotiate_server codec laws new_server inbox [] [] fuel a.values a.message (n2n (pos 7))
              refl refl refl (omega arith) a.readable a.writable wa a.full a.bytes a.enough)

  server-Hears : Hears (protocol codec) new_server
  unfolding agency
  server-Hears = (refl, refl)

  serve-silent : 0 < fuel → serve codec cfg fuel (ready [] []) ≡ waits
  unfolding negotiate
  serve-silent lt =
      let e : fuel ≡ suc (fuel - 1) = omega arith in
      serve-negotiate []
      ∙ ap (λ n. after_negotiate (negotiate codec n new_server (ready [] []))) e
      ∙ ap (λ x. after_negotiate (after_execute x))
          (execute-turn (protocol codec) codec (fuel - 1) new_server [] [] []
            ∙ ap (go_on (protocol codec) codec (fuel - 1) new_server (ready [] []))
                (turn_receive (protocol codec) codec new_server [] none server-Hears))

  serve-Babbles :
      (inbox : List Bytes)
      → 0 < fuel
      → Babbles inbox
      → serve codec cfg fuel (ready inbox []) ≡ panics
  unfolding negotiate
  serve-Babbles inbox lt b =
      let e : fuel ≡ suc (fuel - 1) = omega arith in
      let b' = encode codec b.values in
      ap (λ l. serve codec cfg fuel (ready l [])) b.bytes
      ∙ serve-negotiate (b' ∷ [])
      ∙ ap (λ n. after_negotiate (negotiate codec n new_server (ready (b' ∷ []) []))) e
      ∙ ap (λ x. after_negotiate (after_execute x))
          (execute-turn (protocol codec) codec (fuel - 1) new_server [] (b' ∷ []) []
            ∙ ap (go_on (protocol codec) codec (fuel - 1) new_server (ready (b' ∷ []) [])) (
                turn_receive (protocol codec) codec new_server [] (some b') server-Hears
                ∙ ap after_receive (
                    receive_bytes-unreadable codec laws new_server b.values b.error server-Hears
                      b.unreadable b.writable)))

  serve_all-Asks :
      (front rest : List (List Bytes))
      → IsWritable codec (accept_items (n2n (pos 7)) cfg.magic)
      → All Asks front
      → serve_all codec cfg fuel (front ++ rest)
        ≡ many_more (length front) (serve_all codec cfg fuel rest)
  unfolding serve_all
  serve_all-Asks [] rest wa h = refl
  serve_all-Asks (inbox ∷ front) rest wa (a, h) =
      ap (after_handle _) (serve-Asks inbox wa a) ∙ ap one_more (serve_all-Asks front rest wa h)

  many_more-state :
      (n : ℕ)
      → (many_more n (listens 0) ≡ listens n)
        × (many_more n (crashed 0) ≡ crashed n)
        × (many_more n (awaits_client 0) ≡ awaits_client n)
  many_more-state zero = (refl, refl, refl)
  many_more-state (suc n) =
      let (p, q, t) = many_more-state n in (ap one_more p, ap one_more q, ap one_more t)

  -- The server serves its clients one after the other, each that sends a message that can be read, in any
  -- pieces that are not empty, and then waits for the next one. If one of them sends,
  -- whole and in one payload, an array of values in which `from_iter` finds an error, then the server has
  -- panicked, and no client behind it is served; and if one of them sends nothing, then the server waits
  -- for it, and no client behind it is served either. The encoder accepts all messages and those values,
  -- and fuel is two turns more than the pieces of each client that is served.
  pub serve_all-clients :
      (front behind : List (List Bytes)) (bad : List Bytes)
      → IsWritable codec (accept_items (n2n (pos 7)) cfg.magic)
      → 0 < fuel
      → All Asks front
      → Babbles bad
      → (serve_all codec cfg fuel front ≡ listens (length front))
        × (serve_all codec cfg fuel (front ++ bad ∷ behind) ≡ crashed (length front))
        × (serve_all codec cfg fuel (front ++ [] ∷ behind) ≡ awaits_client (length front))
  unfolding serve_all
  serve_all-clients front behind bad wa lt h b =
      let (p, q, t) = many_more-state (length front) in
      (
        ap (serve_all codec cfg fuel) (sym (append-nil front)) ∙ serve_all-Asks front [] wa h ∙ p,
        serve_all-Asks front (bad ∷ behind) wa h
            ∙ ap (λ x. many_more (length front) (after_handle (serve_all codec cfg fuel behind) x))
                (serve-Babbles bad lt b)
            ∙ q,
        serve_all-Asks front ([] ∷ behind) wa h
            ∙ ap (λ x. many_more (length front) (after_handle (serve_all codec cfg fuel behind) x))
                (serve-silent lt)
            ∙ t,
      )
