-- ===== src/Main/Process/Tests.antt =====
-- A run of main, and the result applied to it.
use pevo_pinner.Prelude.{true, false, some, []}
use pevo_pinner.Prelude.Int.{pos}
use pevo_pinner.Prelude.Text.{Text}
use pevo_pinner.Config.Settings.{Config, accepted}
use pevo_pinner.Config.Tests.{parsed, dashes}
use pevo_pinner.AutoPin.Manager.{ok}
use pevo_pinner.Main.Tests.{manager}
use pevo_pinner.Main.Process.{StartCalls, start_up}
use pevo_pinner.Main.Process.Clean.{Ends, start_up-Ends}

-- A URL is its own text, and nothing fails; the mesh is off.
abbrev hourly : Config
hourly = record parsed { refresh_interval = pos 3600000000000 }

abbrev calls : StartCalls Text
calls = record {
  parsed = accepted hourly;
  verbs = dashes;
  mkdir_fails = false;
  query = record { parse = λ t. some t; sslmode = λ t. []; with_sslmode = λ m t. t };
  opens = λ t. true;
  pings = λ t. true;
  rules = ok manager;
  failures = record {
    mkdir = false;
    repo = false;
    libp2p = record {
      has_identity = true;
      calls_routing = true;
      makes_dht = true;
      makes_host = true;
    };
    bitswap = false;
    gateway = false;
    mesh = false;
  };
  close_fails = λ p. false;
}

start_up-Ends_example : Ends calls.close_fails (start_up calls)
start_up-Ends_example = start_up-Ends calls
