-- ===== src/Certificates/Sessions.antt =====
-- CertificateManager over several runs of the program, the first of them in an empty directory.
use lan_send.Base.{
  String, Option, none, some, Bool, true, ◌||◌, ◌≡◌, refl, ap, sym, subst, ◌∙◌, List, [], ◌∷◌,
  str_eq, if_keeps,
}
use lan_send.Message.{Bytes}
use lan_send.Hasher.{Digest}
use lan_send.Certificates.{
  calculate_certificate_hash, TrustCodec, CertificateManager, contains, insert, is_complete,
  trust_fingerprint, is_fingerprint_trusted, trust_certificate, verify_certificate, construct,
}
use lan_send.Certificates.Trusted.{
  load-Loaded, Reads, contains-insert, or_true, stored-saved, trusted_file,
}
use lan_send.Certificates.Stored.{IsStored, Keeps, trusting, trust_fingerprint-IsStored}
use lan_send.Certificates.Restart.{load-IsStored, restart-Keeps}
use lan_send.Certificates.FirstStart.{
  made_context, fresh, construct-fresh, fresh-Begins, fresh_context,
}

-- The calls of a running manager.
pub data Call : Type 0 where
  trusts : String → Call
  certifies : Bytes → Call
  verifies : Option Bytes → Call

module _ (d : Digest) (json : TrustCodec) (writable : String → Bool) where
  unfoldable pub call : Call → CertificateManager → CertificateManager
  call (trusts f) m = trust_fingerprint d json writable f m
  call (certifies pem) m = trust_certificate d json writable pem m
  call (verifies pem) m = (verify_certificate d json writable pem m).1

  unfoldable pub run : List Call → CertificateManager → CertificateManager
  unfolding call
  run [] m = m
  run (c ∷ cs) m = run cs (call c m)

  -- The program is started again and again on the directory that the last run left.
  unfoldable pub sessions :
      Option (Bytes × (Bytes × Bytes)) → List (List Call) → CertificateManager → CertificateManager
  unfolding run
  sessions made [] m = m
  sessions made (cs ∷ css) m =
      sessions made css (run cs (construct d json writable made m.certificate_dir))

  Keeps-refl : (m : CertificateManager) → IsStored d json writable m → Keeps d json writable m m
  Keeps-refl m h = record { same = refl; trusts = λ f t. t; stays = h }

  Keeps-trans :
      (l m n : CertificateManager)
      → Keeps d json writable l m
      → Keeps d json writable m n
      → Keeps d json writable l n
  Keeps-trans l m n h k = record {
    same = k.same ∙ h.same;
    trusts = λ f t. k.trusts f (h.trusts f t);
    stays = k.stays;
  }

  module _ (law : Reads json) (open_all : (name : String) → writable name ≡ true) where
    trust_fingerprint-Keeps :
        (f : String) (m : CertificateManager)
        → IsStored d json writable m
        → Keeps d json writable m (trust_fingerprint d json writable f m)
    unfolding is_fingerprint_trusted
    trust_fingerprint-Keeps f m h =
        let s =
          stored-saved d json writable law (insert f m.trusted_fingerprints) trusted_file
            m.certificate_dir in
        let e = trusting d json writable law open_all f m s.0 h.path s.1 in
        record {
          same = ap (λ (x : CertificateManager). x.security_context) e;
          trusts = λ g t.
              ap (λ (x : CertificateManager). contains g x.trusted_fingerprints) e
              ∙ contains-insert g f m.trusted_fingerprints
              ∙ ap (λ b. str_eq f g || b) t
              ∙ or_true (str_eq f g);
          stays = trust_fingerprint-IsStored d json writable law open_all f m h;
        }

    call-Keeps :
        (c : Call) (m : CertificateManager)
        → IsStored d json writable m
        → Keeps d json writable m (call c m)
    unfolding call trust_certificate verify_certificate
    call-Keeps (trusts f) m h = trust_fingerprint-Keeps f m h
    call-Keeps (certifies pem) m h =
        trust_fingerprint-Keeps (calculate_certificate_hash d json writable pem) m h
    call-Keeps (verifies none) m h = Keeps-refl m h
    call-Keeps (verifies (some pem)) m h =
        if_keeps (λ (r : Bool × CertificateManager). Keeps d json writable m r.1)
          (contains (calculate_certificate_hash d json writable pem) m.trusted_fingerprints) _ _
          (Keeps-refl m h)
          (trust_fingerprint-Keeps (calculate_certificate_hash d json writable pem) m h)

    run-Keeps :
        (cs : List Call) (m : CertificateManager)
        → IsStored d json writable m
        → Keeps d json writable m (run cs m)
    unfolding run
    run-Keeps [] m h = Keeps-refl m h
    run-Keeps (c ∷ cs) m h =
        let one = call-Keeps c m h in
        Keeps-trans m (call c m) (run cs (call c m)) one (run-Keeps cs (call c m) one.stays)

    all-Keeps :
        (made : Option (Bytes × (Bytes × Bytes))) (css : List (List Call)) (m : CertificateManager)
        → IsStored d json writable m
        → Keeps d json writable m (sessions made css m)
    unfolding sessions
    all-Keeps made [] m h = Keeps-refl m h
    all-Keeps made (cs ∷ css) m h =
        let again = construct d json writable made m.certificate_dir in
        let one = restart-Keeps d json writable made m h in
        let two = run-Keeps cs again one.stays in
        let later = all-Keeps made css (run cs again) two.stays in
        Keeps-trans m again (sessions made css (run cs again)) one
          (Keeps-trans again (run cs again) (sessions made css (run cs again)) two later)

    -- The first start is in an empty directory and makes an identity, none of whose texts is empty;
    -- every file can be written. Whatever the manager is called for then, and however often the
    -- program is started again on the directory and called again: the last manager has the identity
    -- of the first, and trusts each fingerprint that the first one trusted when it was left.
    pub sessions-Keeps :
        (texts : Bytes × (Bytes × Bytes)) (made : Option (Bytes × (Bytes × Bytes))) (cs : List Call)
        (css : List (List Call))
        → is_complete d json writable (made_context d json writable texts) ≡ true
        → let m = run cs (construct d json writable (some texts) []) in
          (m.security_context ≡ made_context d json writable texts)
          × Keeps d json writable m (sessions made css m)
    sessions-Keeps texts made cs css complete =
        let m0 = construct d json writable (some texts) [] in
        let f = fresh d json writable law open_all trusted_file texts in
        let e = construct-fresh d json writable law open_all texts in
        let stored : IsStored d json writable m0 = subst (IsStored d json writable) (sym e) (
          load-IsStored d json writable f
            (fresh-Begins d json writable law open_all texts complete)) in
        let ran = run-Keeps cs m0 stored in
        (
          ran.same
              ∙ ap (λ (x : CertificateManager). x.security_context) e
              ∙ (load-Loaded d json writable f).context
              ∙ fresh_context d json writable law open_all texts,
          all-Keeps made css (run cs m0) ran.stays,
        )
