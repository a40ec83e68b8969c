-- ===== src/Receive/Temporary.antt =====
-- The temporary paths of the registered files.
use lan_send.Base.{
  String, some, ◌≡◌, ◌≢◌, ap, ◌∙◌, [], ◌∷◌, str_eq, eq_iff, Bool-cases, inl, inr, some_inj, Assoc,
  lookup, assign, erase, lookup-assign, lookup-erase, arith,
}
use lan_send.Receive.{ReceiveFileContext}

-- `q` is the temporary path of no registered file.
abbrev pub NotTemp : String → Assoc ReceiveFileContext → Type 0
NotTemp q [] = Unit {0}
NotTemp q ((k, f) ∷ m) = (f.temp_file_path ≢ q) × NotTemp q m

pub lookup-assign_other {ℓ} :
    {V : Type ℓ} (p q : String) (v : V) (m : Assoc V) → p ≢ q → lookup q (assign p v m) ≡ lookup q m
lookup-assign_other p q v m h = ground (arith, lookup-assign p q v m, eq_iff p q)

pub lookup-erase_other {ℓ} :
    {V : Type ℓ} (p q : String) (m : Assoc V) → p ≢ q → lookup q (erase p m) ≡ lookup q m
lookup-erase_other p q m h = ground (arith, lookup-erase p q m, eq_iff p q)

pub NotTemp-lookup :
    (q k : String) (f : ReceiveFileContext) (m : Assoc ReceiveFileContext)
    → lookup k m ≡ some f
    → NotTemp q m
    → f.temp_file_path ≢ q
unfolding lookup
NotTemp-lookup q k f [] h n = cc
NotTemp-lookup q k f ((j, g) ∷ m) h n = elim (Bool-cases (str_eq j k)) [
  | inl e ↦
      λ t. n.0 (ap (λ (x : ReceiveFileContext). x.temp_file_path) (some_inj g f (rw e at h)) ∙ t)
  | inr e ↦ NotTemp-lookup q k f m (rw e at h) n.1
]

pub NotTemp-assign :
    (q k : String) (f : ReceiveFileContext) (m : Assoc ReceiveFileContext)
    → f.temp_file_path ≢ q
    → NotTemp q m
    → NotTemp q (assign k f m)
unfolding assign
NotTemp-assign q k f [] h n = (h, tt)
NotTemp-assign q k f ((j, g) ∷ m) h n = elim (Bool-cases (str_eq j k)) [
  | inl e ↦ rw e (h, n.1)
  | inr e ↦ rw e (n.0, NotTemp-assign q k f m h n.1)
]
