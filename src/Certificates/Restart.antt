-- ===== src/Certificates/Restart.antt =====
-- CertificateManager: what is left of a manager when the program is started again.
use lan_send.Base.{
  String, Option, Bool, true, false, ◌||◌, ◌≡◌, refl, ap, sym, subst, ◌∙◌, [], str_eq,
}
use lan_send.Message.{Bytes}
use lan_send.Hasher.{Digest}
use lan_send.Naming.{Disk}
use lan_send.Certificates.{
  TrustCodec, CertificateManager, contains, insert, blank, load_trusted_fingerprints,
  trust_fingerprint, is_fingerprint_trusted, all_exist, is_complete, read_context,
  load_security_context, init_security_context, construct,
}
use lan_send.Certificates.Trusted.{stored, trusted_file, contains-insert, load-Loaded}
use lan_send.Certificates.Stored.{IsStored, Keeps, unsaved}

or_flip : (a b : Bool) → (b || (a || false)) ≡ (a || b)
or_flip true true = refl
or_flip true false = refl
or_flip false true = refl
or_flip false false = refl

module _ (d : Digest) (json : TrustCodec) (writable : String → Bool) where
  -- A manager whose set is its own fingerprint, before it loads the others.
  pub record Begins (m : CertificateManager) : Type 0 where
    pub files : all_exist d json writable m.certificate_dir ≡ true
    pub context : read_context d json writable m.certificate_dir ≡ m.security_context
    pub complete : is_complete d json writable m.security_context ≡ true
    pub path : m.trusted_fingerprints_path ≡ trusted_file
    pub own : m.trusted_fingerprints ≡ insert m.security_context.certificate_hash []

  load-trusts :
      (m : CertificateManager) (f : String)
      → Begins m
      → contains f (load_trusted_fingerprints d json writable m).trusted_fingerprints ≡ (
          str_eq m.security_context.certificate_hash f
          || contains f (stored json trusted_file m.certificate_dir))
  unfolding contains
  load-trusts m f h =
      let hash = m.security_context.certificate_hash in
      (load-Loaded d json writable m).trusts f
      ∙ ap (λ p. contains f (stored json p m.certificate_dir) || contains f m.trusted_fingerprints)
          h.path
      ∙ ap (λ s. contains f (stored json trusted_file m.certificate_dir) || contains f s) h.own
      ∙ ap (λ b. contains f (stored json trusted_file m.certificate_dir) || b)
          (contains-insert f hash [])
      ∙ or_flip (str_eq hash f) (contains f (stored json trusted_file m.certificate_dir))

  pub load-IsStored :
      (m : CertificateManager)
      → Begins m
      → IsStored d json writable (load_trusted_fingerprints d json writable m)
  load-IsStored m h =
      let l = load-Loaded d json writable m in
      record {
        files = ap (λ x. all_exist d json writable x) l.dir ∙ h.files;
        context = ap (λ x. read_context d json writable x) l.dir ∙ h.context ∙ sym l.context;
        complete = ap (λ x. is_complete d json writable x) l.context ∙ h.complete;
        path = l.path ∙ h.path;
        kept = λ f e.
            ap
              (λ c.
                str_eq c.certificate_hash f
                || contains f (
                    stored json trusted_file
                      (load_trusted_fingerprints d json writable m).certificate_dir))
              l.context
            ∙ ap
                (λ x.
                  str_eq m.security_context.certificate_hash f
                  || contains f (stored json trusted_file x))
                l.dir
            ∙ sym (load-trusts m f h)
            ∙ e;
      }

  -- The manager that the constructor makes of a directory with an identity, before it loads the rest.
  known : Disk → CertificateManager
  known dir = record {
    security_context = read_context d json writable dir;
    trusted_fingerprints_path = trusted_file;
    trusted_fingerprints = insert (read_context d json writable dir).certificate_hash [];
    certificate_dir = dir;
  }

  load-known :
      (dir : Disk)
      → all_exist d json writable dir ≡ true
      → is_complete d json writable (read_context d json writable dir) ≡ true
      → load_security_context d json writable (blank dir)
        ≡ (true, record (known dir) { trusted_fingerprints_path = "" })
  unfolding load_security_context trust_fingerprint blank known
  load-known dir files complete =
      rw (load_security_context, files, complete)
        (ap (λ x. (true, x))
          (unsaved d json writable (record (known dir) { trusted_fingerprints_path = "" }) refl))

  construct-known :
      (made : Option (Bytes × (Bytes × Bytes))) (dir : Disk)
      → all_exist d json writable dir ≡ true
      → is_complete d json writable (read_context d json writable dir) ≡ true
      → construct d json writable made dir ≡ load_trusted_fingerprints d json writable (known dir)
  unfolding construct init_security_context known
  construct-known made dir files complete =
      let opened : init_security_context d json writable made (blank dir)
          ≡ record (known dir) { trusted_fingerprints_path = "" } =
        rw (init_security_context, load-known dir files complete) refl in
      ap
        (λ (x : CertificateManager).
          load_trusted_fingerprints d json writable
            (record x { trusted_fingerprints_path = trusted_file }))
        opened

  -- The program is started again on the directory of a manager.
  pub restart-Keeps :
      (made : Option (Bytes × (Bytes × Bytes))) (m : CertificateManager)
      → IsStored d json writable m
      → Keeps d json writable m (construct d json writable made m.certificate_dir)
  unfolding is_fingerprint_trusted known
  restart-Keeps made m h =
      let complete = ap (λ x. is_complete d json writable x) h.context ∙ h.complete in
      let k = known m.certificate_dir in
      let b : Begins k = record {
        files = h.files;
        context = refl;
        complete = complete;
        path = refl;
        own = refl;
      } in
      subst (Keeps d json writable m)
        (sym (construct-known made m.certificate_dir h.files complete))
        (record {
          same = (load-Loaded d json writable k).context ∙ h.context;
          trusts = λ f t.
              load-trusts k f b
              ∙ ap
                  (λ c.
                    str_eq c.certificate_hash f
                    || contains f (stored json trusted_file m.certificate_dir))
                  h.context
              ∙ h.kept f t;
          stays = load-IsStored k b;
        })
