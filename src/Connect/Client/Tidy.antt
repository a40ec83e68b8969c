-- ===== src/Connect/Client/Tidy.antt =====
-- HttpsClient: its state after any calls.
use lan_send.Base.{
  ℕ, Option, some, String, Bool, true, false, ◌&&◌, if◌then◌else◌, List, [], ◌∷◌, ◌≡◌, refl, sym,
  ap, ◌∙◌, if_keeps, if_cases, if_true, if_false, false≢true,
}
use lan_send.Connect.Client.{
  retain, release, HttpsClient, Attempt, new_client, cleared, disconnect, free_session,
  take_session, connect, destroy,
}

pub data Call : Type 0 where
  connects : Bool → Attempt → String → ℕ → Call
  disconnects : Bool → Call

unfoldable pub run : List Call → HttpsClient → HttpsClient
unfolding connect
run [] c = c
run (connects throws a host port ∷ cs) c = run cs (connect throws a host port c).1
run (disconnects throws ∷ cs) c = run cs (disconnect throws c).1

-- Without a connection there is no host and no port, and one reference is held exactly where there is
-- a session.
pub record IsTidy (c : HttpsClient) : Type 0 where
  pub no_host : c.connected ≡ false → (c.current_host ≡ "") × (c.current_port ≡ 0)
  pub counted : c.references ≡ some (if c.has_session then 1 else 0)

cleared-IsTidy :
    (c : HttpsClient) → c.references ≡ some (if c.has_session then 1 else 0) → IsTidy (cleared c)
unfolding cleared
cleared-IsTidy c h = record { no_host = λ e. (refl, refl); counted = h }

disconnect-IsTidy : (throws : Bool) (c : HttpsClient) → IsTidy c → IsTidy (disconnect throws c).1
unfolding disconnect
disconnect-IsTidy throws c h =
    if_keeps (λ (r : Bool × HttpsClient). IsTidy r.1) c.connected _ _ (cleared-IsTidy c h.counted) h

no_more : (r : Option ℕ) → r ≡ some 1 → release r ≡ some 0
unfolding release
no_more r h = rw h refl

one_more : (r : Option ℕ) → r ≡ some 0 → retain r ≡ some 1
unfolding retain
one_more r h = rw h refl

kept_connected : (given : Bool) (c : HttpsClient) → (take_session given c).connected ≡ c.connected
unfolding take_session free_session
kept_connected true c =
    if_keeps (λ (x : HttpsClient). x.connected ≡ c.connected) c.has_session _ _ refl refl
kept_connected false c =
    if_keeps (λ (x : HttpsClient). x.connected ≡ c.connected) c.has_session _ _ refl refl

free_session-counted :
    (c : HttpsClient)
    → c.references ≡ some (if c.has_session then 1 else 0)
    → ((free_session c).references ≡ some 0) × ((free_session c).has_session ≡ false)
unfolding free_session
free_session-counted c h =
    if_cases (λ (x : HttpsClient). (x.references ≡ some 0) × (x.has_session ≡ false)) c.has_session
      _ _ (λ e. (no_more c.references (h ∙ ap some (if_true c.has_session _ _ e)), refl))
      (λ e. (h ∙ ap some (if_false c.has_session _ _ e), e))

take_session-counted :
    (given : Bool) (c : HttpsClient)
    → c.references ≡ some (if c.has_session then 1 else 0)
    → (take_session given c).references ≡ some (if (take_session given c).has_session then 1 else 0)
unfolding take_session
take_session-counted given c h =
    let freed = free_session-counted c h in
    if_keeps (λ (x : HttpsClient). x.references ≡ some (if x.has_session then 1 else 0)) given _ _
      (one_more _ freed.0)
      (freed.0 ∙ sym (ap some (if_false (free_session c).has_session _ _ freed.1)))

disconnect-counted :
    (throws : Bool) (c : HttpsClient)
    → c.references ≡ some (if c.has_session then 1 else 0)
    → (disconnect throws c).1.references
      ≡ some (if (disconnect throws c).1.has_session then 1 else 0)
unfolding disconnect cleared
disconnect-counted throws c h =
    if_keeps (λ (r : Bool × HttpsClient). r.1.references ≡ some (if r.1.has_session then 1 else 0))
      c.connected _ _ h h

-- The result of a call of Connect tells whether there is a connection, and then the host and the port
-- are those of the call.
abbrev pub Answers : String → ℕ → Bool × HttpsClient → Type 0
Answers host port r =
    (r.0 ≡ r.1.connected) × (r.0 ≡ true → (r.1.current_host ≡ host) × (r.1.current_port ≡ port))

record Done (host : String) (port : ℕ) (r : Bool × HttpsClient) : Type 0 where
  answers : Answers host port r
  tidy : IsTidy r.1

connect-Done :
    (throws : Bool) (a : Attempt) (host : String) (port : ℕ) (c : HttpsClient)
    → IsTidy c
    → Done host port (connect throws a host port c)
unfolding connect cleared
connect-Done throws a host port c h =
    let c' = record (disconnect throws c).1 { connected = true } in
    let counted = disconnect-counted throws c h.counted in
    if_keeps (Done host port) (a.hostname_set && (a.resolved && (a.reached && a.handshaken))) _ _
      (record {
        answers = (sym (kept_connected a.gives_session c'), λ e. (refl, refl));
        tidy = record {
          no_host = λ e. absurd (false≢true (sym e ∙ kept_connected a.gives_session c'));
          counted = take_session-counted a.gives_session c' counted;
        };
      })
      (record { answers = (refl, λ e. absurd (cc)); tidy = cleared-IsTidy c' counted })

run-IsTidy_from : (cs : List Call) (c : HttpsClient) → IsTidy c → IsTidy (run cs c)
unfolding run
run-IsTidy_from [] c h = h
run-IsTidy_from (connects throws a host port ∷ cs) c h =
    run-IsTidy_from cs (connect throws a host port c).1 (connect-Done throws a host port c h).tidy
run-IsTidy_from (disconnects throws ∷ cs) c h =
    run-IsTidy_from cs (disconnect throws c).1 (disconnect-IsTidy throws c h)

-- A new client, after any calls of Connect and Disconnect, whatever fails in them: without a connection
-- it has no host and no port, no session was freed without a reference to it, and it holds one
-- reference exactly where it has a session, and none elsewhere. A further
-- call of Connect returns true exactly where a connection stands behind it, which is then one to the
-- host and the port of the call; and the destructor leaves no reference.
pub run-IsTidy :
    (cs : List Call)
    → IsTidy (run cs new_client)
      × ((throws : Bool) (a : Attempt) (host : String) (port : ℕ)
          → Answers host port (connect throws a host port (run cs new_client)))
      × ((destroy (run cs new_client)).references ≡ some 0)
unfolding destroy
run-IsTidy cs =
    let tidy =
      run-IsTidy_from cs new_client (record { no_host = λ e. (refl, refl); counted = refl }) in
    (
      tidy,
      λ throws a host port. (connect-Done throws a host port (run cs new_client) tidy).answers,
      (free_session-counted (run cs new_client) tidy.counted).0,
    )
