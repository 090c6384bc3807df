-- ===== src/Negotiate/Examples.antt =====
-- The theorems on negotiate.c at a concrete exchange.
use silksocks.Base.{◌≡◌, refl, true, false, List, [], ◌∷◌, arith}
use silksocks.Negotiate.{rounds, negotiate}
use silksocks.Negotiate.Delivers.{flushes, closing, rounds_deliver}
use silksocks.Negotiate.Stages.{
  Relay, empty, pending, returned, ready, chunk, eof, Reading, Writing, takes, Round,
}
use silksocks.Negotiate.Select.{negotiate_select}
use silksocks.Negotiate.Splice.{negotiate_splice}
use silksocks.Negotiate.Laws.{reached, negotiate-Relays, negotiate_select-Relays}
use silksocks.Negotiate.Kept.{Relays}
use silksocks.Negotiate.Splice.Parts.{Counts}
use silksocks.Negotiate.Status.{EndsAll, negotiate-Ends}
use silksocks.Negotiate.Splice.Laws as Spliced

-- Two bytes from the client and one from the proxy; a write of one byte each way and the end of the
-- client; and the end of the proxy.
abbrev exchange : List Round
exchange =
    record {
      polled = ready true false true false;
      client_read = chunk 1 (2 ∷ []);
      proxy_read = chunk 3 [];
      client_write = Writing.again;
      proxy_write = Writing.again;
    }
    ∷ record {
      polled = ready true true false true;
      client_read = eof;
      proxy_read = Reading.again;
      client_write = takes 1;
      proxy_write = takes 1;
    }
    ∷ record {
      polled = ready false false true false;
      client_read = Reading.again;
      proxy_read = eof;
      client_write = Writing.again;
      proxy_write = Writing.again;
    }
    ∷ []

negotiate-Relays_example : Relays (reached (negotiate true true exchange))
negotiate-Relays_example = negotiate-Relays true true exchange

negotiate_select-Relays_example : Relays (reached (negotiate_select true true exchange))
negotiate_select-Relays_example = negotiate_select-Relays true true exchange

negotiate_splice-Counts_example :
    Counts (Spliced.reached (negotiate_splice true true true true exchange))
negotiate_splice-Counts_example = Spliced.negotiate_splice-Counts true true true true exchange

negotiate-Ends_example : EndsAll true exchange (negotiate true true exchange)
negotiate-Ends_example = negotiate-Ends true true exchange

-- A client that is done, with two of its three bytes still to be written.
abbrev ending : Relay
ending = record {
  to = record { stored = 1 ∷ 2 ∷ 3 ∷ []; optr = 1 };
  fr = empty;
  clienteof = true;
  client = record { received = 1 ∷ 2 ∷ 3 ∷ []; sent = []; fin = false };
  proxy = record { received = []; sent = 1 ∷ []; fin = false };
}

ending-Relays : Relays ending
unfolding pending
ending-Relays = record {
  to = record { ordered = omega arith; bounded = omega arith };
  fr = record { ordered = omega arith; bounded = omega arith };
  to_proxy = refl;
  to_client = refl;
  fin = refl;
}

rounds_deliver_example :
    (r' : Relay) × (rounds (flushes (0 ∷ 7 ∷ []) (closing ∷ [])) ending ≡ returned 0 r')
    × (r'.proxy.sent ≡ 1 ∷ 2 ∷ 3 ∷ [])
    × (r'.proxy.fin ≡ true)
unfolding pending
rounds_deliver_example =
    rounds_deliver (0 ∷ 7 ∷ []) ending ending-Relays refl (omega arith) (omega arith)
