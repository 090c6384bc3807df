-- ===== src/ConnectNonb/Laws.antt =====
-- What the poll build of `connect_nonb` makes of the errors that are pending on the socket.
use silksocks.Base.{Bool, true, false, List, [], ◌∷◌}
use silksocks.ConnectNonb.{Connect, Wait, writable, unset, timeout, eintr, eagain, failed, Script}

-- the same answers, with no error pending where the socket is reported
abbrev pub without_errors : List Wait → List Wait
without_errors [] = []
without_errors (writable getsockopt so_error ∷ ws) = writable true false ∷ without_errors ws
without_errors (unset einprogress ∷ ws) = unset einprogress ∷ without_errors ws
without_errors (timeout ∷ ws) = timeout ∷ without_errors ws
without_errors (eintr ∷ ws) = eintr ∷ without_errors ws
without_errors (eagain ∷ ws) = eagain ∷ without_errors ws
without_errors (failed ∷ ws) = failed ∷ without_errors ws

abbrev script : Bool → Bool → Connect → Script → Script
script getfl setfl c s = record s { getfl = getfl; setfl = setfl; connect = c }
