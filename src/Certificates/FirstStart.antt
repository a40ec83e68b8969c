-- ===== src/Certificates/FirstStart.antt =====
-- CertificateManager on an empty directory: the first start.
use lan_send.Base.{
  String, some, Bool, true, false, ◌≡◌, refl, ap, ◌∙◌, [], is_empty, lookup, assign,
}
use lan_send.Message.{Bytes}
use lan_send.Hasher.{Digest}
use lan_send.Naming.{Disk, exists}
use lan_send.Certificates.{
  calculate_certificate_hash, SecurityContext, TrustCodec, CertificateManager, insert, blank,
  write_file, is_complete, read_context, trust_fingerprint, load_trusted_fingerprints,
  save_security_context, generate_self_signed_certificate, load_security_context,
  init_security_context, construct,
}
use lan_send.Certificates.Trusted.{Reads, trusted_file}
use lan_send.Certificates.Stored.{unsaved}
use lan_send.Certificates.Restart.{Begins}

module _ (d : Digest) (json : TrustCodec) (writable : String → Bool) where
  -- The identity of these texts.
  abbrev pub made_context : Bytes × (Bytes × Bytes) → SecurityContext
  made_context (private_key, (public_key, certificate)) = record {
    private_key_pem = private_key;
    public_key_pem = public_key;
    certificate_pem = certificate;
    certificate_hash = calculate_certificate_hash d json writable certificate;
  }

  module _ (law : Reads json) (open_all : (name : String) → writable name ≡ true) where
    -- The first start: the identity is made, and its four files are written.
    first_files : Bytes × (Bytes × Bytes) → Disk
    first_files (private_key, (public_key, certificate)) =
        assign "fingerprint.txt"
          (json.encode (calculate_certificate_hash d json writable certificate))
          (assign "certificate.pem" certificate
            (assign "public_key.pem" public_key (assign "private_key.pem" private_key [])))

    pub fresh : String → Bytes × (Bytes × Bytes) → CertificateManager
    fresh path texts = record {
      security_context = made_context texts;
      trusted_fingerprints_path = path;
      trusted_fingerprints = insert (made_context texts).certificate_hash [];
      certificate_dir = first_files texts;
    }

    written :
        (name : String) (c : Bytes) (dir : Disk)
        → is_empty name ≡ false
        → write_file d json writable name c dir ≡ assign name c dir
    unfolding write_file
    written name c dir e = rw (write_file, e, open_all name) refl

    pub fresh_context :
        (texts : Bytes × (Bytes × Bytes))
        → (fresh trusted_file texts).security_context ≡ made_context texts
    unfolding fresh
    fresh_context texts = refl

    -- Before the files are written.
    generated : Bytes × (Bytes × Bytes) → CertificateManager
    generated texts = record (fresh "" texts) { certificate_dir = [] }

    generate-generated :
        (texts : Bytes × (Bytes × Bytes))
        → generate_self_signed_certificate d json writable texts (blank []) ≡ generated texts
    unfolding generate_self_signed_certificate trust_fingerprint blank generated fresh
    generate-generated (private_key, (public_key, certificate)) =
        unsaved d json writable (generated (private_key, (public_key, certificate))) refl

    save-fresh :
        (texts : Bytes × (Bytes × Bytes))
        → save_security_context d json writable (generated texts) ≡ fresh "" texts
    unfolding save_security_context generated fresh first_files
    save-fresh (private_key, (public_key, certificate)) =
        rw
          (
            save_security_context,
            written "private_key.pem" private_key [] refl,
            written "public_key.pem" public_key (assign "private_key.pem" private_key []) refl,
            written "certificate.pem" certificate
                (assign "public_key.pem" public_key (assign "private_key.pem" private_key [])) refl,
            written "fingerprint.txt"
                (json.encode (calculate_certificate_hash d json writable certificate))
                (assign "certificate.pem" certificate
                  (assign "public_key.pem" public_key (assign "private_key.pem" private_key [])))
                refl,
          )
          refl

    pub construct-fresh :
        (texts : Bytes × (Bytes × Bytes))
        → construct d json writable (some texts) []
          ≡ load_trusted_fingerprints d json writable (fresh trusted_file texts)
    unfolding construct init_security_context load_security_context blank fresh exists lookup
    construct-fresh texts =
        let made : save_security_context d json writable
              (generate_self_signed_certificate d json writable texts (blank []))
            ≡ fresh "" texts =
          ap (λ (x : CertificateManager). save_security_context d json writable x)
            (generate-generated texts)
          ∙ save-fresh texts in
        ap
          (λ (x : CertificateManager).
            load_trusted_fingerprints d json writable
              (record x { trusted_fingerprints_path = trusted_file }))
          made

    pub fresh-Begins :
        (texts : Bytes × (Bytes × Bytes))
        → is_complete d json writable (made_context texts) ≡ true
        → Begins d json writable (fresh trusted_file texts)
    unfolding fresh first_files exists lookup assign read_context
    fresh-Begins (private_key, (public_key, certificate)) complete = record {
      files = refl;
      context =
          ap
            (λ h. record (made_context (private_key, (public_key, certificate))) {
              certificate_hash = h;
            })
            (law.decode-encode (calculate_certificate_hash d json writable certificate));
      complete = complete;
      path = refl;
      own = refl;
    }
