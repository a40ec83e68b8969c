-- ===== src/Tests/Calling.antt =====
-- A client that connects, fails, and disconnects.
use lan_send.Base.{ℕ, some, String, Bool, true, false, ◌≡◌, List, [], ◌∷◌}
use lan_send.Connect.Client.{Attempt, new_client, connect, destroy}
use lan_send.Connect.Client.Tidy.{Call, run, IsTidy, Answers, run-IsTidy}

abbrev works : Attempt
works = record {
  hostname_set = true;
  resolved = true;
  reached = true;
  handshaken = true;
  gives_session = true;
}

abbrev calls : List Call
calls =
    Call.connects false works "10.0.0.7" 40000
    ∷ Call.connects true (record works { reached = false }) "10.0.0.8" 40000
    ∷ Call.connects false works "10.0.0.9" 40001
    ∷ Call.disconnects false
    ∷ []

run-IsTidy_example :
    IsTidy (run calls new_client)
    × ((throws : Bool) (a : Attempt) (host : String) (port : ℕ)
        → Answers host port (connect throws a host port (run calls new_client)))
    × ((destroy (run calls new_client)).references ≡ some 0)
run-IsTidy_example = run-IsTidy calls
