-- ===== src/ConnectNonb/Examples.antt =====
-- The poll build of connect_nonb.c at a connection that is refused late.
use silksocks.Base.{◌≡◌, refl, true, false, [], ◌∷◌}
use silksocks.ConnectNonb.{in_progress, eintr, writable, Script, connect_nonb, result}

abbrev refused_late : Script
refused_late = record {
  getfl = true;
  setfl = true;
  connect = in_progress;
  waits = eintr ∷ writable true true ∷ [];
  restore = true;
}

late_success : connect_nonb refused_late ≡ result true false
unfolding connect_nonb
late_success = refl
