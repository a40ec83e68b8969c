-- ===== src/Receive/Frame.antt =====
-- ReceiveController's cleanup, and a file that is no temporary file of the session.
use lan_send.Base.{
  String, some, Bool, true, false, ◌≡◌, ◌∙◌, [], ◌∷◌, if_keeps, Assoc, lookup, is_empty, ◌||◌,
  is_nil,
}
use lan_send.Message.{Bytes}
use lan_send.Naming.{Disk, exists}
use lan_send.Model.{What, Feedback}
use lan_send.Receive.{
  ReceiveFileContext, ReceiveController, feedback, remove_first_temp, do_cleanup, reset_to_idle,
  end_session, check_session_completion,
}
use lan_send.Receive.Temporary.{NotTemp, lookup-erase_other}

module _ (q : String) (v : Bytes) where
  -- The file stands at `q` with content `v`, and `q` is no temporary path.
  pub record Keeps (c : ReceiveController) : Type 0 where
    pub stands : lookup q c.disk ≡ some v
    pub apart : NotTemp q c.received_files

  stands-remove :
      (files : Assoc ReceiveFileContext) (disk : Disk)
      → NotTemp q files
      → lookup q disk ≡ some v
      → lookup q (remove_first_temp files disk) ≡ some v
  unfolding remove_first_temp
  stands-remove [] disk n h = h
  stands-remove ((k, f) ∷ files) disk n h =
      if_keeps (λ (x : Disk). lookup q x ≡ some v) (exists f.temp_file_path disk) _ _
        (lookup-erase_other f.temp_file_path q disk n.0 ∙ h) (stands-remove files disk n.1 h)

  stands-cleanup : (c : ReceiveController) → Keeps c → lookup q (do_cleanup c).disk ≡ some v
  unfolding do_cleanup
  stands-cleanup c h =
      if_keeps (λ (x : ReceiveController). lookup q x.disk ≡ some v)
        (is_empty c.session_id || is_nil c.received_files) _ _ h.stands
        (stands-remove c.received_files c.disk h.apart h.stands)

  pub reset_to_idle-Keeps : (c : ReceiveController) → Keeps c → Keeps (reset_to_idle c)
  unfolding reset_to_idle
  reset_to_idle-Keeps c h = record { stands = stands-cleanup c h; apart = tt }

  pub feedback-Keeps : (f : Feedback) (c : ReceiveController) → Keeps c → Keeps (feedback f c)
  unfolding feedback
  feedback-Keeps f c h =
      if_keeps Keeps c.has_callback _ _ (record { stands = h.stands; apart = h.apart }) h

  pub end_session-Keeps :
      (success cancelled : Bool) (e : What) (c : ReceiveController)
      → Keeps c
      → Keeps (end_session success cancelled e c)
  unfolding end_session
  end_session-Keeps success cancelled e c h =
      feedback-Keeps _ (reset_to_idle c) (reset_to_idle-Keeps c h)

  pub check_session_completion-Keeps :
      (c : ReceiveController) → Keeps c → Keeps (check_session_completion c)
  unfolding check_session_completion
  check_session_completion-Keeps c h =
      if_keeps Keeps (is_empty c.session_id) _ _ h
        (if_keeps Keeps _ _ _ (end_session-Keeps true false What.no_text c h) h)
