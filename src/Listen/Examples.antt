-- ===== src/Listen/Examples.antt =====
-- `tcp_listen` on concrete answers.
use silksocks.Base.{◌≡◌, refl, true, false, none, some, List, [], ◌∷◌}
use silksocks.Listen.{Address, listening, exits, start_listening, try_addresses, tcp_listen}

abbrev usable : Address
usable = record {
  socket = some 5;
  setsockopt = true;
  bind = true;
  close = true;
  listen = true;
  addrlen = 16;
}

abbrev taken : Address
taken = record usable { socket = some 4; bind = false }

abbrev unsupported : Address
unsupported = record usable { socket = none }

abbrev answers : List Address
answers = unsupported ∷ taken ∷ usable ∷ taken ∷ []

second_usable : tcp_listen (some answers) (0 ∷ []) ≡ listening 5 16 (5 ∷ 0 ∷ [])
unfolding tcp_listen try_addresses start_listening
second_usable = refl

nothing_usable : tcp_listen (some (unsupported ∷ taken ∷ [])) (0 ∷ []) ≡ exits
unfolding tcp_listen try_addresses
nothing_usable = refl
