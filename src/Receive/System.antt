-- ===== src/Receive/System.antt =====
-- The receiving side as the event loop runs it: the controller and the request coroutines that wait
-- for the user. Each handler runs to its end or to its wait without another in between.
use lan_send.Base.{String, Option, some, Bool, true, false, ◌≡◌, List, ◌∷◌, ◌++◌}
use lan_send.Message.{Bytes}
use lan_send.Hasher.{Digest}
use lan_send.Json.{Codec}
use lan_send.Disk.{ChunkIo}
use lan_send.Model.{FileDto, What}
use lan_send.Http.{RequestLine}
use lan_send.Receive.{ReceiveController, set_save_directory, notify_sender_lost}
use lan_send.Receive.Session.{IsConsistent, end_session-IsConsistent}
use lan_send.Receive.Handlers.{
  After, on_send_chunk-After, on_verify_integrity-After, on_cancel_send-After, on_cancel_wait-After,
}
use lan_send.Receive.Opening.{begin_request-After, finish_request-After}
use lan_send.Receive.Chunk.{on_send_chunk}
use lan_send.Receive.Verify.{VerifyIo, on_verify_integrity}
use lan_send.Receive.Cancel.{on_cancel_send, on_cancel_wait}
use lan_send.Receive.Request.{
  Entropy, Pending, Poll, Begun, begin_request, finish_request, poll_confirmation,
}

pub record Server : Type 0 where
  pub controller : ReceiveController
  pub waiting : List Pending

-- The coroutines after `begin_request`.
abbrev pub begun : Begun → List Pending → List Pending
begun (Begun.refused res) ps = ps
begun (Begun.waits p) ps = p ∷ ps

-- How a wait ends: at once where no wait condition is set, and else by a round of the task.
pub data Ends (c : ReceiveController) (p : Pending) : Option (List FileDto) → Type 0 where
  unasked : c.has_wait_condition ≡ false → Ends c p (some p.dto.files)
  asked :
      (poll : Poll) {r : Option (List FileDto)}
      → c.has_wait_condition ≡ true
      → poll_confirmation c poll p.dto.files ≡ some r
      → Ends c p r

module _ (d : Digest) (json : Codec) where
  pub data Step (s : Server) : Server → Type 0 where
    requests :
        (req : RequestLine) (body : Bytes)
        → Step s (record {
          controller = (begin_request json req body s.controller).0;
          waiting = begun (begin_request json req body s.controller).1 s.waiting;
        })
    resumes :
        (e : Entropy) (before after : List Pending) (p : Pending) {r : Option (List FileDto)}
        → s.waiting ≡ before ++ p ∷ after
        → Ends s.controller p r
        → Step s (record {
          controller = (finish_request e p r s.controller).0;
          waiting = before ++ after;
        })
    sends_chunk :
        (io : ChunkIo) (cancelled : Bool) (req : RequestLine) (body : Bytes)
        → Step s
            (record s { controller = (on_send_chunk d json io cancelled req body s.controller).0 })
    verifies :
        (io : VerifyIo) (cancelled : Bool) (req : RequestLine) (body : Bytes)
        → Step s (record s {
          controller = (on_verify_integrity d json io cancelled req body s.controller).0;
        })
    cancels_send :
        (req : RequestLine) (body : Bytes)
        → Step s (record s { controller = (on_cancel_send json req body s.controller).0 })
    cancels_wait :
        (req : RequestLine) (body : Bytes)
        → Step s (record s { controller = (on_cancel_wait json req body s.controller).0 })
    loses_sender : Step s (record s { controller = notify_sender_lost s.controller })
    moves_directory :
        (dir : String) → Step s (record s { controller = set_save_directory dir s.controller })

  pub data Reach (s : Server) : Server → Type 0 where
    here : Reach s s
    next : {t u : Server} → Reach s t → Step t u → Reach s u

  set_save_directory-IsConsistent :
      (dir : String) (c : ReceiveController)
      → IsConsistent c
      → IsConsistent (set_save_directory dir c)
  unfolding set_save_directory
  set_save_directory-IsConsistent dir c h = record {
    idle_cleared = h.idle_cleared;
    files_have_id = h.files_have_id;
    distinct = h.distinct;
  }

  Step-IsConsistent :
      {s t : Server} → Step s t → IsConsistent s.controller → IsConsistent t.controller
  unfolding After
  Step-IsConsistent {s} (requests req body) h = begin_request-After json req body s.controller h
  Step-IsConsistent {s} (resumes e before after p {r} w ends) h =
      finish_request-After e p r s.controller h
  Step-IsConsistent {s} (sends_chunk io cancelled req body) h =
      on_send_chunk-After d json cancelled req body s.controller h io
  Step-IsConsistent {s} (verifies io cancelled req body) h =
      on_verify_integrity-After d json cancelled req body s.controller h io
  Step-IsConsistent {s} (cancels_send req body) h =
      on_cancel_send-After d json false req body s.controller h
  Step-IsConsistent {s} (cancels_wait req body) h =
      on_cancel_wait-After d json false req body s.controller h
  Step-IsConsistent {s} loses_sender h =
      unfold notify_sender_lost in
      end_session-IsConsistent false false (What.literal "Sender is lost") s.controller
  Step-IsConsistent {s} (moves_directory dir) h = set_save_directory-IsConsistent dir s.controller h

  -- From a consistent state every order of requests, polls of the user, chunks, verifications,
  -- cancellations and lost connections leads to consistent states: an idle controller has no session
  -- left over, files stand under a session id, and no chunk is counted twice.
  pub Reach-IsConsistent :
      (s t : Server) → IsConsistent s.controller → Reach s t → IsConsistent t.controller
  Reach-IsConsistent s t h here = h
  Reach-IsConsistent s t h (next {t = u} r st) = Step-IsConsistent st (Reach-IsConsistent s u h r)
