-- ===== src/SilkIo/Examples.antt =====
-- The theorems on silkio.c at a concrete socket.
use silksocks.Base.{◌≡◌, refl, true, none, some, [], ◌∷◌, ◌++◌, leb, if◌then◌else◌, length, take}
use silksocks.SilkIo.{ReadEvent, chunk, WriteEvent, takes, Socket, readn_timeo, writen_timeo}
use silksocks.SilkIo.Read.{payload, closes, readn_timeo_lem}
use silksocks.SilkIo.Write.{capacity, writen_timeo_lem}

-- three bytes, an interrupted call and two more; writes of two bytes at most, until one fails
abbrev socket : Socket
socket = record {
  incoming = chunk 1 (2 ∷ 3 ∷ []) ∷ ReadEvent.eintr ∷ chunk 4 (5 ∷ []) ∷ ReadEvent.eof ∷ [];
  accepts = takes 1 ∷ WriteEvent.eintr ∷ takes 1 ∷ WriteEvent.error ∷ [];
  sent = [];
  rcvtimeo = true;
  sndtimeo = true;
}

readn_timeo_lem_example :
    ((readn_timeo socket 4).0 ≡ (
      if leb 4 (length (payload socket.incoming))
      then some 4
      else if closes socket.incoming
      then some (length (payload socket.incoming))
      else none))
    × ((readn_timeo socket 4).1 ≡ take 4 (payload socket.incoming))
readn_timeo_lem_example = readn_timeo_lem socket 4 refl

writen_timeo_lem_example :
    ((writen_timeo socket (1 ∷ 2 ∷ 3 ∷ [])).0
      ≡ (if leb 3 (capacity socket.accepts) then some 3 else none))
    × ((writen_timeo socket (1 ∷ 2 ∷ 3 ∷ [])).1.sent
        ≡ socket.sent ++ take (capacity socket.accepts) (1 ∷ 2 ∷ 3 ∷ []))
writen_timeo_lem_example = writen_timeo_lem socket (1 ∷ 2 ∷ 3 ∷ []) refl
