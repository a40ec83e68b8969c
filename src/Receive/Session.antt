-- ===== src/Receive/Session.antt =====
-- The invariant of ReceiveController between its handlers.
use lan_send.Base.{
  subst, if_keeps, some_inj, String, some, Bool, true, ◌≡◌, refl, [], ◌∷◌, is_empty, str_eq, Assoc,
  lookup, assign, arith, Bool-cases, inl, inr,
}
use lan_send.Model.{What, Feedback}
use lan_send.Receive.{
  ReceiveSessionStatus, ReceiveFileContext, ReceiveController, feedback, reset_to_idle, end_session,
}
use lan_send.Receive.Chunk.Indexes.{Distinct}

abbrev pub DistinctChunks : Assoc ReceiveFileContext → Type 0
DistinctChunks [] = Unit {0}
DistinctChunks ((k, f) ∷ m) = Distinct f.received_chunks × DistinctChunks m

pub DistinctChunks-assign :
    (k : String) (f : ReceiveFileContext) (m : Assoc ReceiveFileContext)
    → Distinct f.received_chunks
    → DistinctChunks m
    → DistinctChunks (assign k f m)
unfolding assign
DistinctChunks-assign k f [] h hs = (h, tt)
DistinctChunks-assign k f ((j, g) ∷ m) h hs = ground (arith, DistinctChunks-assign k f m h hs.1)

pub Distinct-lookup :
    (k : String) (f : ReceiveFileContext) (m : Assoc ReceiveFileContext)
    → lookup k m ≡ some f
    → DistinctChunks m
    → Distinct f.received_chunks
unfolding lookup
Distinct-lookup k f [] h hs = cc
Distinct-lookup k f ((j, g) ∷ m) h hs = elim (Bool-cases (str_eq j k)) [
  | inl e ↦
      subst (λ (x : ReceiveFileContext). Distinct x.received_chunks) (some_inj g f (rw e at h)) hs.0
  | inr e ↦ Distinct-lookup k f m (rw e at h) hs.1
]

-- No session: everything that a session sets has its initial value.
abbrev pub IsCleared : ReceiveController → Type 0
IsCleared c =
    (c.session_id ≡ "")
    × (c.received_files ≡ [])
    × (c.completed_file_count ≡ 0)
    × (c.sender_ip ≡ "")
    × (c.sender_port ≡ 0)

-- An idle controller is cleared, files are registered only under a session id, and no chunk index is
-- counted twice.
pub record IsConsistent (c : ReceiveController) : Type 0 where
  pub idle_cleared : c.session_status ≡ ReceiveSessionStatus.idle → IsCleared c
  pub files_have_id : is_empty c.session_id ≡ true → c.received_files ≡ []
  pub distinct : DistinctChunks c.received_files

pub feedback-IsConsistent :
    (f : Feedback) (c : ReceiveController) → IsConsistent c → IsConsistent (feedback f c)
unfolding feedback
feedback-IsConsistent f c h =
    if_keeps IsConsistent c.has_callback _ _
      (record {
        idle_cleared = h.idle_cleared;
        files_have_id = h.files_have_id;
        distinct = h.distinct;
      })
      h

-- A reset clears the session, whatever the state was.
pub reset_to_idle-IsCleared : (c : ReceiveController) → IsCleared (reset_to_idle c)
unfolding reset_to_idle
reset_to_idle-IsCleared c = (refl, refl, refl, refl, refl)

pub reset_to_idle-IsConsistent : (c : ReceiveController) → IsConsistent (reset_to_idle c)
unfolding reset_to_idle
reset_to_idle-IsConsistent c = record {
  idle_cleared = λ _. reset_to_idle-IsCleared c;
  files_have_id = λ _. refl;
  distinct = tt;
}

pub end_session-IsConsistent :
    (success cancelled : Bool) (e : What) (c : ReceiveController)
    → IsConsistent (end_session success cancelled e c)
unfolding end_session
end_session-IsConsistent success cancelled e c =
    feedback-IsConsistent _ (reset_to_idle c) (reset_to_idle-IsConsistent c)
