-- ===== src/Socks/Stream.antt =====
-- The calls of `readn_timeo` and `writen_timeo` in socks.c, on a stream.
use silksocks.Base.{ℕ, ◌≡◌, refl, sym, ap, ◌∙◌, true, List, [], ◌∷◌, ◌++◌, ==_refl, length}
use silksocks.SilkIo.{ReadEvent, WriteEvent}
use silksocks.SilkIo.Read.{payload}
use silksocks.SilkIo.Exact.{reading, readn_exact, wrote, Takes, writen-Takes}
use silksocks.Socks.World.{World, ok, Side, socket_of, with_socket, recv, recv_byte, send}

-- `recv` of the bytes at the front of the stream
pub recv-payload :
    (side : Side) (code : ℕ) (bytes rest : List ℕ) (w : World)
    → (socket_of side w).rcvtimeo ≡ true
    → payload (socket_of side w).incoming ≡ bytes ++ rest
    → (es : List ReadEvent) × (recv side (length bytes) code w
        ≡ ok bytes (with_socket side (reading es (socket_of side w)) w))
      × (payload es ≡ rest)
unfolding recv
recv-payload side code bytes rest w set eq =
    let (es, run, left) = readn_exact (socket_of side w) bytes rest set eq in
    (es, rw (run, ==_refl (length bytes)) refl, left)

-- the same, for a number of bytes
pub recv_sized :
    (side : Side) (code n : ℕ) (bytes rest : List ℕ) (w : World)
    → length bytes ≡ n
    → (socket_of side w).rcvtimeo ≡ true
    → payload (socket_of side w).incoming ≡ bytes ++ rest
    → (es : List ReadEvent) × (recv side n code w
        ≡ ok bytes (with_socket side (reading es (socket_of side w)) w))
      × (payload es ≡ rest)
recv_sized side code n bytes rest w size set eq =
    let (es, run, left) = recv-payload side code bytes rest w set eq in
    (es, ap (λ k. recv side k code w) (sym size) ∙ run, left)

pub recv_byte-payload :
    (side : Side) (code byte : ℕ) (rest : List ℕ) (w : World)
    → (socket_of side w).rcvtimeo ≡ true
    → payload (socket_of side w).incoming ≡ byte ∷ rest
    → (es : List ReadEvent) × (recv_byte side code w
        ≡ ok byte (with_socket side (reading es (socket_of side w)) w))
      × (payload es ≡ rest)
unfolding recv_byte
recv_byte-payload side code byte rest w set eq =
    let (es, run, left) = recv-payload side code (byte ∷ []) rest w set eq in
    (es, rw run refl, left)

-- `send` of bytes that the writes take
pub send-Takes :
    (side : Side) (code : ℕ) (bytes : List ℕ) (es : List WriteEvent) (w : World)
    → (socket_of side w).sndtimeo ≡ true
    → Takes bytes (socket_of side w).accepts es
    → send side bytes code w ≡ ok tt (with_socket side (wrote bytes es (socket_of side w)) w)
unfolding send
send-Takes side code bytes es w set run =
    rw (writen-Takes (socket_of side w) bytes es set run, ==_refl (length bytes)) refl
