-- ===== src/Certificates/Stored.antt =====
-- CertificateManager: what the directory of a manager holds.
use lan_send.Base.{
  String, Option, none, some, Bool, true, ◌||◌, ◌≡◌, refl, ap, sym, subst, ◌∙◌, str_eq, assign, inl,
  inr, if_keeps, Option-cases,
}
use lan_send.Message.{Bytes}
use lan_send.Hasher.{Digest}
use lan_send.Naming.{Disk}
use lan_send.Certificates.{
  calculate_certificate_hash, TrustCodec, CertificateManager, contains, insert, write_file,
  save_trusted_fingerprints, trust_fingerprint, is_fingerprint_trusted, verify_certificate,
  all_exist, is_complete, read_context,
}
use lan_send.Certificates.Trusted.{
  Reads, stored, trusted_file, exists_other, content_other, or_true, stored-saved,
}

module _ (d : Digest) (json : TrustCodec) (writable : String → Bool) where
  -- The directory of the manager holds its identity, and every fingerprint that it trusts is its own
  -- or stands in the file.
  pub record IsStored (m : CertificateManager) : Type 0 where
    pub files : all_exist d json writable m.certificate_dir ≡ true
    pub context : read_context d json writable m.certificate_dir ≡ m.security_context
    pub complete : is_complete d json writable m.security_context ≡ true
    pub path : m.trusted_fingerprints_path ≡ trusted_file
    pub kept :
        (f : String)
        → contains f m.trusted_fingerprints ≡ true
        → (str_eq m.security_context.certificate_hash f
            || contains f (stored json trusted_file m.certificate_dir))
          ≡ true

  -- The identity is the same, nothing that was trusted is distrusted, and that stays so.
  pub record Keeps (m n : CertificateManager) : Type 0 where
    pub same : n.security_context ≡ m.security_context
    pub trusts :
        (f : String)
        → is_fingerprint_trusted d json writable f m ≡ true
        → is_fingerprint_trusted d json writable f n ≡ true
    pub stays : IsStored n

  -- Writing the trusted fingerprints touches no file of the identity.
  all_exist-assign :
      (c : Bytes) (dir : Disk)
      → all_exist d json writable (assign trusted_file c dir) ≡ all_exist d json writable dir
  all_exist-assign c dir =
      rw
        (
          exists_other "private_key.pem" trusted_file c dir refl,
          exists_other "public_key.pem" trusted_file c dir refl,
          exists_other "certificate.pem" trusted_file c dir refl,
          exists_other "fingerprint.txt" trusted_file c dir refl,
        )
        refl

  read_context-assign :
      (c : Bytes) (dir : Disk)
      → read_context d json writable (assign trusted_file c dir) ≡ read_context d json writable dir
  unfolding read_context
  read_context-assign c dir =
      rw
        (
          read_context,
          content_other "private_key.pem" trusted_file c dir refl,
          content_other "public_key.pem" trusted_file c dir refl,
          content_other "certificate.pem" trusted_file c dir refl,
          content_other "fingerprint.txt" trusted_file c dir refl,
        )
        refl

  pub unsaved :
      (m : CertificateManager)
      → m.trusted_fingerprints_path ≡ ""
      → save_trusted_fingerprints d json writable m ≡ m
  unfolding save_trusted_fingerprints write_file
  unsaved m e = elim (Option-cases (json.dump m.trusted_fingerprints)) [
    | inl h ↦
        rw (save_trusted_fingerprints, h)
          (ap (λ x. record m { certificate_dir = x }) (rw (e, write_file) refl))
    | inr (content, h) ↦
        rw (save_trusted_fingerprints, h)
          (ap (λ x. record m { certificate_dir = x }) (rw (e, write_file) refl))
  ]

  module _ (law : Reads json) (open_all : (name : String) → writable name ≡ true) where
    -- Trusting a fingerprint saves the whole set.
    pub trusting :
        (f : String) (m : CertificateManager) (content : Bytes)
        → m.trusted_fingerprints_path ≡ trusted_file
        → json.dump (insert f m.trusted_fingerprints) ≡ some content
        → trust_fingerprint d json writable f m ≡ record m {
          trusted_fingerprints = insert f m.trusted_fingerprints;
          certificate_dir = assign trusted_file content m.certificate_dir;
        }
    unfolding trust_fingerprint save_trusted_fingerprints write_file
    trusting f m content path dumped =
        rw (trust_fingerprint, save_trusted_fingerprints, dumped, write_file)
          (ap
            (λ x. record m {
              trusted_fingerprints = insert f m.trusted_fingerprints;
              certificate_dir = x;
            })
            (rw (path, open_all trusted_file) refl))

    pub trust_fingerprint-IsStored :
        (f : String) (m : CertificateManager)
        → IsStored m
        → IsStored (trust_fingerprint d json writable f m)
    trust_fingerprint-IsStored f m h =
        let s =
          stored-saved d json writable law (insert f m.trusted_fingerprints) trusted_file
            m.certificate_dir in
        subst IsStored (sym (trusting f m s.0 h.path s.1)) (record {
          files = all_exist-assign s.0 m.certificate_dir ∙ h.files;
          context = read_context-assign s.0 m.certificate_dir ∙ h.context;
          complete = h.complete;
          path = h.path;
          kept = λ g e. rw (s.2, e) (or_true (str_eq m.security_context.certificate_hash g));
        })

    pub verify_certificate-IsStored :
        (pem : Option Bytes) (m : CertificateManager)
        → IsStored m
        → IsStored (verify_certificate d json writable pem m).1
    unfolding verify_certificate
    verify_certificate-IsStored none m h = h
    verify_certificate-IsStored (some pem) m h =
        if_keeps (λ (r : Bool × CertificateManager). IsStored r.1)
          (contains (calculate_certificate_hash d json writable pem) m.trusted_fingerprints) _ _ h
          (trust_fingerprint-IsStored (calculate_certificate_hash d json writable pem) m h)
