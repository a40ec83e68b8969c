-- ===== src/Certificates.antt =====
-- src/core/security/certificate_manager.cc: the identity of the device and the fingerprints that it
-- trusts, kept in one directory. The directory is the list of its files by their names. The keys that
-- OpenSSL generates, the digest and nlohmann::json are parameters; nothing here depends on what is in
-- a certificate. A file that cannot be opened for writing is not written, and no exception tells so.
pub mod Trusted
pub mod Stored
pub mod Restart
pub mod FirstStart
pub mod Sessions
use lan_send.Base.{
  String, Option, none, some, Bool, true, false, not, ◌&&◌, if◌then◌else◌, List, [], ◌∷◌, is_nil,
  is_empty, str_eq, lookup, assign,
}
use lan_send.Message.{Bytes}
use lan_send.Hasher.{Digest, to_hex}
use lan_send.Naming.{Disk, exists}

-- core/model/security_context.h
pub record SecurityContext : Type 0 where
  pub private_key_pem : Bytes
  pub public_key_pem : Bytes
  pub certificate_pem : Bytes
  pub certificate_hash : String

-- The JSON array of fingerprints, where `parse`, `text` and `dump` are `none` where they throw and
-- `elements` where the document is no array, and the bytes of a std::string.
pub record TrustCodec : Type 1 where
  pub Doc : Type 0
  pub parse : Bytes → Option Doc
  pub elements : Doc → Option (List Doc)
  pub text : Doc → Option String
  pub dump : List String → Option Bytes
  pub encode : String → Bytes
  pub decode : Bytes → String

pub record CertificateManager : Type 0 where
  pub security_context : SecurityContext
  -- empty until the constructor sets it
  pub trusted_fingerprints_path : String
  -- std::unordered_set
  pub trusted_fingerprints : List String
  pub certificate_dir : Disk

-- find and insert of the set
unfoldable pub contains : String → List String → Bool
contains f [] = false
contains f (g ∷ s) = if str_eq g f then true else contains f s

unfoldable pub insert : String → List String → List String
unfolding contains
insert f s = if contains f s then s else f ∷ s

unfoldable pub blank : Disk → CertificateManager
blank dir = record {
  security_context = record {
    private_key_pem = [];
    public_key_pem = [];
    certificate_pem = [];
    certificate_hash = "";
  };
  trusted_fingerprints_path = "";
  trusted_fingerprints = [];
  certificate_dir = dir;
}

-- What `std::ifstream` reads of a file of the directory.
abbrev pub content_in : String → Disk → Bytes
content_in name dir = elim (lookup name dir) [ none ↦ [] | some content ↦ content ]

module _ (d : Digest) (json : TrustCodec) (writable : String → Bool) where
  -- What EVP_DigestUpdate and EVP_DigestFinal_ex make of the text of a certificate, as hexadecimal.
  unfoldable pub calculate_certificate_hash : Bytes → String
  calculate_certificate_hash pem = to_hex (d.final (d.update d.init pem))

  -- std::ofstream; no file has the empty path.
  unfoldable pub write_file : String → Bytes → Disk → Disk
  write_file name content dir =
      if is_empty name then dir else if writable name then assign name content dir else dir

  -- The file is emptied before the text is made.
  unfoldable pub save_trusted_fingerprints : CertificateManager → CertificateManager
  unfolding write_file
  save_trusted_fingerprints m = elim (json.dump m.trusted_fingerprints) [
    | none ↦ record m {
      certificate_dir = write_file m.trusted_fingerprints_path [] m.certificate_dir;
    }
    | some content ↦ record m {
      certificate_dir = write_file m.trusted_fingerprints_path content m.certificate_dir;
    }
  ]

  -- The loop over the array, which an element that is no text ends.
  unfoldable pub insert_all : List json.Doc → List String → List String
  unfolding insert
  insert_all [] s = s
  insert_all (e ∷ es) s = elim (json.text e) [ none ↦ s | some f ↦ insert_all es (insert f s) ]

  unfoldable pub load_trusted_fingerprints : CertificateManager → CertificateManager
  unfolding insert_all
  load_trusted_fingerprints m =
      if exists m.trusted_fingerprints_path m.certificate_dir
      then elim (json.parse (content_in m.trusted_fingerprints_path m.certificate_dir)) [
        | none ↦ m
        | some doc ↦ elim (json.elements doc) [
          | none ↦ m
          | some es ↦ record m { trusted_fingerprints = insert_all es m.trusted_fingerprints }
        ]
      ]
      else m

  unfoldable pub trust_fingerprint : String → CertificateManager → CertificateManager
  unfolding insert save_trusted_fingerprints
  trust_fingerprint f m =
      save_trusted_fingerprints
        (record m { trusted_fingerprints = insert f m.trusted_fingerprints })

  unfoldable pub is_fingerprint_trusted : String → CertificateManager → Bool
  unfolding contains
  is_fingerprint_trusted f m = contains f m.trusted_fingerprints

  unfoldable pub trust_certificate : Bytes → CertificateManager → CertificateManager
  unfolding trust_fingerprint
  trust_certificate pem m = trust_fingerprint (calculate_certificate_hash pem) m

  -- The certificate that is being verified, if there is one, and whether it is accepted.
  unfoldable pub verify_certificate : Option Bytes → CertificateManager → Bool × CertificateManager
  unfolding contains trust_fingerprint
  verify_certificate none m = (false, m)
  verify_certificate (some pem) m =
      if contains (calculate_certificate_hash pem) m.trusted_fingerprints
      then (true, m)
      else (true, trust_fingerprint (calculate_certificate_hash pem) m)

  unfoldable pub save_security_context : CertificateManager → CertificateManager
  unfolding write_file
  save_security_context m =
      let c = m.security_context in
      record m {
        certificate_dir = write_file "fingerprint.txt" (json.encode c.certificate_hash) (
            write_file "certificate.pem" c.certificate_pem (
              write_file "public_key.pem" c.public_key_pem
                (write_file "private_key.pem" c.private_key_pem m.certificate_dir)));
      }

  -- The texts that generateSelfSignedCertificate makes: private key, public key, certificate.
  unfoldable pub generate_self_signed_certificate :
      Bytes × (Bytes × Bytes) → CertificateManager → CertificateManager
  unfolding trust_fingerprint
  generate_self_signed_certificate (private_key, (public_key, certificate)) m =
      let hash = calculate_certificate_hash certificate in
      trust_fingerprint hash (record m {
        security_context = record {
          private_key_pem = private_key;
          public_key_pem = public_key;
          certificate_pem = certificate;
          certificate_hash = hash;
        };
      })

  abbrev pub all_exist : Disk → Bool
  all_exist dir =
      exists "private_key.pem" dir
      && (exists "public_key.pem" dir
          && (exists "certificate.pem" dir && exists "fingerprint.txt" dir))

  abbrev pub is_complete : SecurityContext → Bool
  is_complete c =
      not (is_nil c.private_key_pem)
      && (not (is_nil c.public_key_pem)
          && (not (is_nil c.certificate_pem) && not (is_empty c.certificate_hash)))

  unfoldable pub read_context : Disk → SecurityContext
  read_context dir = record {
    private_key_pem = content_in "private_key.pem" dir;
    public_key_pem = content_in "public_key.pem" dir;
    certificate_pem = content_in "certificate.pem" dir;
    certificate_hash = json.decode (content_in "fingerprint.txt" dir);
  }

  unfoldable pub load_security_context : CertificateManager → Bool × CertificateManager
  unfolding read_context trust_fingerprint
  load_security_context m =
      let c = read_context m.certificate_dir in
      if all_exist m.certificate_dir
      then (is_complete c, trust_fingerprint c.certificate_hash (record m { security_context = c }))
      else (false, m)

  -- `made` is none where a call of OpenSSL fails.
  unfoldable pub init_security_context :
      Option (Bytes × (Bytes × Bytes)) → CertificateManager → CertificateManager
  unfolding load_security_context generate_self_signed_certificate save_security_context
  init_security_context made m =
      let loaded = load_security_context m in
      if loaded.0 then loaded.1 else elim made [
        | none ↦ loaded.1
        | some texts ↦ save_security_context (generate_self_signed_certificate texts loaded.1)
      ]

  -- The constructor, on a directory that exists.
  unfoldable pub construct : Option (Bytes × (Bytes × Bytes)) → Disk → CertificateManager
  unfolding init_security_context load_trusted_fingerprints blank
  construct made dir = load_trusted_fingerprints (record (init_security_context made (blank dir)) {
    trusted_fingerprints_path = "trusted_fingerprints.json";
  })
