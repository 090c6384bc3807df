-- ===== src/Main/WorksExamples.antt =====
-- Two connections of a process: one that logs in and asks the database, and one whose client is gone.
use silksocks.Base.{true, false, List, [], ◌∷◌}
use silksocks.Socks.Examples.{world}
use silksocks.Socks.Shared.Examples.{newcomer, linked}
use silksocks.Negotiate.Delivers.{closing}
use silksocks.Main.Works.{Env}

abbrev envs : List Env
envs =
    record {
      sys = linked;
      getpeername = true;
      cli = newcomer.cli;
      prx = newcomer.prx;
      setnonblock_client = true;
      setnonblock_proxy = true;
      answers = closing ∷ [];
    }
    ∷ record {
      sys = linked;
      getpeername = false;
      cli = (world [] []).cli;
      prx = (world [] []).prx;
      setnonblock_client = false;
      setnonblock_proxy = true;
      answers = [];
    }
    ∷ []
