-- ===== src/Certificates/Trusted.antt =====
-- CertificateManager: the set of trusted fingerprints and the file that keeps it.
use lan_send.Base.{
  String, none, some, Bool, true, false, ◌||◌, ◌≡◌, refl, ap, sym, ◌∙◌, if◌then◌else◌, List, [],
  ◌∷◌, str_eq, eq_iff, assign, lookup-assign, lookup-assign_same, Bool-cases, inl, inr,
  Option-cases,
}
use lan_send.Message.{Bytes}
use lan_send.Hasher.{Digest}
use lan_send.Naming.{Disk, exists}
use lan_send.Certificates.{
  TrustCodec, CertificateManager, contains, insert, insert_all, content_in,
  load_trusted_fingerprints,
}

if_or : (b x : Bool) → (if b then true else x) ≡ (b || x)
if_or true x = refl
if_or false x = refl

pub or_true : (b : Bool) → (b || true) ≡ true
or_true true = refl
or_true false = refl

or_swap : (eq r c : Bool) → (r || (eq || c)) ≡ ((if eq then true else r) || c)
or_swap true true c = refl
or_swap true false c = refl
or_swap false true c = refl
or_swap false false c = refl

pub contains-insert :
    (f g : String) (s : List String) → contains f (insert g s) ≡ (str_eq g f || contains f s)
unfolding insert contains
contains-insert f g s = elim (Bool-cases (contains g s)) [
  | inr e ↦ rw (insert, e) (if_or (str_eq g f) (contains f s))
  | inl e ↦
      rw (insert, e)
        (elim (Bool-cases (str_eq g f)) [
          | inr other ↦ rw other refl
          | inl same ↦ rw same (ap (λ x. contains x s) (sym ((eq_iff g f).0 same)) ∙ e)
        ])
]

pub exists_other :
    (name file : String) (c : Bytes) (dir : Disk)
    → str_eq file name ≡ false
    → exists name (assign file c dir) ≡ exists name dir
unfolding exists
exists_other name file c dir e = rw (exists, lookup-assign file name c dir, e) refl

pub content_other :
    (name file : String) (c : Bytes) (dir : Disk)
    → str_eq file name ≡ false
    → content_in name (assign file c dir) ≡ content_in name dir
content_other name file c dir e = rw (content_in, lookup-assign file name c dir, e) refl

pub exists_same : (name : String) (c : Bytes) (dir : Disk) → exists name (assign name c dir) ≡ true
unfolding exists
exists_same name c dir = rw (exists, lookup-assign_same name c dir) refl

pub content_same :
    (name : String) (c : Bytes) (dir : Disk) → content_in name (assign name c dir) ≡ c
content_same name c dir = rw (content_in, lookup-assign_same name c dir) refl

abbrev pub trusted_file : String
trusted_file = "trusted_fingerprints.json"

module _ (json : TrustCodec) where
  -- The elements are these texts.
  abbrev pub AreTexts : List json.Doc → List String → Type 0
  AreTexts [] [] = Unit {0}
  AreTexts (e ∷ es) (f ∷ fs) = (json.text e ≡ some f) × AreTexts es fs
  AreTexts _ _ = ⊥

  -- What is relied on of nlohmann::json: the array that was written is read back, and a text survives
  -- as its bytes.
  pub record Reads : Type 0 where
    pub saved :
        (s : List String)
        → (content : Bytes) × (doc : json.Doc) × (es : List json.Doc) × (json.dump s ≡ some content)
          × (json.parse content ≡ some doc)
          × (json.elements doc ≡ some es)
          × AreTexts es s
    pub decode-encode : (f : String) → json.decode (json.encode f) ≡ f

  -- The texts in front of the first element that is none.
  readable : List json.Doc → List String
  readable [] = []
  readable (e ∷ es) = elim (json.text e) [ none ↦ [] | some f ↦ f ∷ readable es ]

  readable-AreTexts : (es : List json.Doc) (fs : List String) → AreTexts es fs → readable es ≡ fs
  unfolding readable
  readable-AreTexts [] [] h = refl
  readable-AreTexts (e ∷ es) (f ∷ fs) h =
      rw (readable, h.0) (ap (◌∷◌ f) (readable-AreTexts es fs h.1))
  readable-AreTexts [] (f ∷ fs) h = absurd h
  readable-AreTexts (e ∷ es) [] h = absurd h

  -- The fingerprints that a file holds.
  unfoldable pub stored : String → Disk → List String
  unfolding readable
  stored path dir =
      if exists path dir
      then elim (json.parse (content_in path dir)) [
        | none ↦ []
        | some doc ↦ elim (json.elements doc) [ none ↦ [] | some es ↦ readable es ]
      ]
      else []

module _ (d : Digest) (json : TrustCodec) (writable : String → Bool) where
  contains-insert_all :
      (f : String) (es : List json.Doc) (s : List String)
      → contains f (insert_all d json writable es s)
        ≡ (contains f (readable json es) || contains f s)
  unfolding insert_all readable contains
  contains-insert_all f [] s = refl
  contains-insert_all f (e ∷ es) s = elim (Option-cases (json.text e)) [
    | inl h ↦ rw (insert_all, readable, h) refl
    | inr (g, h) ↦
        rw (insert_all, readable, h)
          (contains-insert_all f es (insert g s)
            ∙ ap (λ b. contains f (readable json es) || b) (contains-insert f g s)
            ∙ or_swap (str_eq g f) (contains f (readable json es)) (contains f s))
  ]

  -- What loading does: it adds what the file holds to the set.
  pub record Loaded (m n : CertificateManager) : Type 0 where
    pub context : n.security_context ≡ m.security_context
    pub dir : n.certificate_dir ≡ m.certificate_dir
    pub path : n.trusted_fingerprints_path ≡ m.trusted_fingerprints_path
    pub trusts :
        (f : String)
        → contains f n.trusted_fingerprints ≡ (
            contains f (stored json m.trusted_fingerprints_path m.certificate_dir)
            || contains f m.trusted_fingerprints)

  pub load-Loaded :
      (m : CertificateManager) → Loaded m (load_trusted_fingerprints d json writable m)
  unfolding load_trusted_fingerprints stored contains
  load-Loaded m =
      let path = m.trusted_fingerprints_path in
      elim (Bool-cases (exists path m.certificate_dir)) [
        | inr e ↦
            rw (load_trusted_fingerprints, e)
              (record {
                context = refl;
                dir = refl;
                path = refl;
                trusts = λ f. rw (stored, e) refl;
              })
        | inl e ↦ elim (Option-cases (json.parse (content_in path m.certificate_dir))) [
          | inl h ↦
              rw (load_trusted_fingerprints, e, h)
                (record {
                  context = refl;
                  dir = refl;
                  path = refl;
                  trusts = λ f. rw (stored, e, h) refl;
                })
          | inr (doc, h) ↦ elim (Option-cases (json.elements doc)) [
            | inl k ↦
                rw (load_trusted_fingerprints, e, h, k)
                  (record {
                    context = refl;
                    dir = refl;
                    path = refl;
                    trusts = λ f. rw (stored, e, h, k) refl;
                  })
            | inr (es, k) ↦
                rw (load_trusted_fingerprints, e, h, k)
                  (record {
                    context = refl;
                    dir = refl;
                    path = refl;
                    trusts =
                        λ f. rw (stored, e, h, k) (contains-insert_all f es m.trusted_fingerprints);
                  })
          ]
        ]
      ]

  -- A set that was saved under a path is read back.
  pub stored-saved :
      Reads json
      → (s : List String) (path : String) (dir : Disk)
      → (content : Bytes) × (json.dump s ≡ some content)
        × (stored json path (assign path content dir) ≡ s)
  unfolding stored
  stored-saved law s path dir =
      let r = law.saved s in
      (
        r.0,
        r.3,
        rw (stored, exists_same path r.0 dir, ap json.parse (content_same path r.0 dir) ∙ r.4, r.5)
            (readable-AreTexts json r.2 s r.6),
      )
