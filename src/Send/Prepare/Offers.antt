-- ===== src/Send/Prepare/Offers.antt =====
-- What prepareFiles offers, and what the session keeps of it.
use lan_send.Base.{
  ℕ, ◌+◌, ◌≤◌, String, none, some, ◌≡◌, ◌≢◌, ◌⊎◌, true, false, Bool-cases, inl, inr, refl, sym,
  subst, arith, if◌then◌else◌, Assoc, lookup, str_eq, eq_iff, eq_refl, List, [], ◌∷◌, ◌++◌, length,
  Option-cases,
}
use lan_send.Message.{Bytes}
use lan_send.Hasher.{Digest, IsStreaming, calculate_data_checksum}
use lan_send.Hasher.Streaming.{checksum_of_stream-eq-data}
use lan_send.Naming.{Disk}
use lan_send.Path.{filename}
use lan_send.FileType.{get_file_type}
use lan_send.Model.{FileDto}
use lan_send.Send.{SendSession, TransferFileInfo, default_chunk_size}
use lan_send.Send.Prepare.{FileAccess, emplace, chunk_count, file_dto, prepare_files}

lookup-snoc {ℓ} :
    {V : Type ℓ} (k key : String) (v : V) (m : Assoc V)
    → lookup k (m ++ (key, v) ∷ [])
      ≡ elim (lookup k m) [ none ↦ (if str_eq key k then some v else none) | some x ↦ some x ]
unfolding lookup
lookup-snoc k key v [] = refl
lookup-snoc k key v (entry ∷ m) = ground (arith, lookup-snoc k key v m)

module _ (d : Digest) (access : FileAccess) (disk : Disk) where
  -- The entry of the table for an offered file.
  abbrev pub entry_of : String → FileDto → TransferFileInfo
  entry_of path dto = record {
    file_path = path;
    file_size = dto.file_size;
    total_chunks = dto.total_chunks;
    file_token = "";
  }

  -- The metadata describes the file that stands at the path, and the table has its entry.
  pub record Offer (table : Assoc TransferFileInfo) (path : String) (dto : FileDto) : Type 0 where
    pub content : Bytes
    pub stands : lookup path disk ≡ some content
    pub opened : access.opens path ≡ true
    pub named : dto.file_name ≡ filename path
    pub size : dto.file_size ≡ length content
    pub chunk : dto.chunk_size ≡ default_chunk_size
    pub total : dto.total_chunks ≡ chunk_count (length content) default_chunk_size
    pub sum : dto.file_checksum ≡ calculate_data_checksum d content
    pub entry : lookup dto.file_id table ≡ some (entry_of path dto)

  -- In the order of the paths; a path at which no file stands has no offer.
  unfoldable pub Offers : Assoc TransferFileInfo → List String → List FileDto → Type 0
  Offers table [] dtos = dtos ≡ []
  Offers table (path ∷ paths) dtos =
      (access.answers path ≡ true)
      × (((lookup path disk ≡ none) × Offers table paths dtos)
          ⊎ ((dto : FileDto) × (rest : List FileDto) × (dtos ≡ dto ∷ rest)
              × Offer table path dto
              × Offers table paths rest))

  -- At one of the paths the file system throws, or a file stands that cannot be opened.
  unfoldable pub Blocked : List String → Type 0
  Blocked [] = false ≡ true
  Blocked (path ∷ paths) =
      ((access.answers path ≡ false) ⊎ ((lookup path disk ≢ none) × (access.opens path ≡ false)))
      ⊎ Blocked paths

  module _ (uuid : ℕ → String) (streaming : IsStreaming d)
      (apart : (i j : ℕ) → uuid i ≡ uuid j → i ≡ j) where
    -- No identifier from the i-th on is in the table.
    Fresh : ℕ → Assoc TransferFileInfo → Type 0
    Fresh i m = (j : ℕ) → i ≤ j → lookup (uuid j) m ≡ none

    -- What a table has, the later one has too.
    Grows : Assoc TransferFileInfo → Assoc TransferFileInfo → Type 0
    Grows m m' = (k : String) (v : TransferFileInfo) → lookup k m ≡ some v → lookup k m' ≡ some v

    emplaced :
        (i : ℕ) (v : TransferFileInfo) (m : Assoc TransferFileInfo)
        → Fresh i m
        → Fresh (i + 1) (emplace (uuid i) v m)
          × Grows m (emplace (uuid i) v m)
          × (lookup (uuid i) (emplace (uuid i) v m) ≡ some v)
    unfolding emplace Fresh Grows
    emplaced i v m fresh =
        let absent = fresh i (omega arith) in
        rw (emplace, absent)
          (
            λ j above. ground (
              arith,
              lookup-snoc (uuid j) (uuid i) v m,
              fresh j,
              eq_iff (uuid i) (uuid j),
              apart i j,
            ),
            λ k x known. ground (arith, lookup-snoc k (uuid i) v m, known),
            ground (arith, lookup-snoc (uuid i) (uuid i) v m, absent, eq_refl (uuid i)),
          )

    emplaced_as :
        (i : ℕ) (k : String) (v : TransferFileInfo) (m : Assoc TransferFileInfo)
        → k ≡ uuid i
        → Fresh i m
        → Fresh (i + 1) (emplace k v m)
          × Grows m (emplace k v m)
          × (lookup k (emplace k v m) ≡ some v)
    emplaced_as i k v m e fresh =
        subst
          (λ (x : String).
            Fresh (i + 1) (emplace x v m)
            × Grows m (emplace x v m)
            × (lookup x (emplace x v m) ≡ some v))
          (sym e) (emplaced i v m fresh)

    described :
        (i : ℕ) (path : String) (content : Bytes)
        → lookup path disk ≡ some content
        → access.opens path ≡ true
        → (dto : FileDto) × (file_dto d uuid access disk i path content ≡ some dto)
          × (dto.file_id ≡ uuid i)
          × ((table : Assoc TransferFileInfo)
              → lookup dto.file_id table ≡ some (entry_of path dto)
              → Offer table path dto)
    unfolding file_dto
    described i path content stands opened =
        let dto : FileDto = record {
          file_id = uuid i;
          file_name = filename path;
          file_size = length content;
          chunk_size = default_chunk_size;
          total_chunks = chunk_count (length content) default_chunk_size;
          file_checksum = calculate_data_checksum d content;
          file_type = get_file_type path;
        } in
        (
          dto,
          rw (file_dto, opened, checksum_of_stream-eq-data d streaming content) refl,
          refl,
          λ table entry. record {
            content = content;
            stands = stands;
            opened = opened;
            named = refl;
            size = refl;
            chunk = refl;
            total = refl;
            sum = refl;
            entry = entry;
          },
        )

    -- One file, as prepare_files treats it.
    prepare_files-step :
        (i : ℕ) (path : String) (paths : List String) (s s' : SendSession) (content : Bytes)
        (dto : FileDto) (dtos : List FileDto)
        → access.answers path ≡ true
        → lookup path disk ≡ some content
        → file_dto d uuid access disk i path content ≡ some dto
        → prepare_files d uuid access disk
            (i + 1)
            paths
            (record s { transfer_files = emplace dto.file_id (entry_of path dto) s.transfer_files })
          ≡ some (dtos, s')
        → prepare_files d uuid access disk i (path ∷ paths) s ≡ some (dto ∷ dtos, s')
    unfolding prepare_files
    prepare_files-step i path paths s s' content dto dtos answers stands made rest =
        rw (prepare_files, answers, stands, made, rest) refl

    -- What preparing comes to: it throws, or offers the files and keeps what the table has.
    Prepared : ℕ → List String → SendSession → Type 0
    Prepared i paths s =
        ((prepare_files d uuid access disk i paths s ≡ none) × Blocked paths)
        ⊎ ((dtos : List FileDto) × (s' : SendSession) × (prepare_files d uuid access disk i paths s
              ≡ some (dtos, s'))
            × Grows s.transfer_files s'.transfer_files
            × Offers s'.transfer_files paths dtos)

    silent_path :
        (i : ℕ) (path : String) (paths : List String) (s : SendSession)
        → access.answers path ≡ false
        → Prepared i (path ∷ paths) s
    unfolding prepare_files Prepared Blocked
    silent_path i path paths s silent = inl (rw (prepare_files, silent) refl, inl (inl silent))

    absent_path :
        (i : ℕ) (path : String) (paths : List String) (s : SendSession)
        → access.answers path ≡ true
        → lookup path disk ≡ none
        → Prepared i paths s
        → Prepared i (path ∷ paths) s
    unfolding prepare_files Prepared Blocked Offers
    absent_path i path paths s answers gone (inl (run, blocked)) =
        inl (rw (prepare_files, answers, gone) run, inr blocked)
    absent_path i path paths s answers gone (inr (dtos, s', run, grows, offers)) =
        inr (dtos, s', rw (prepare_files, answers, gone) run, grows, (answers, inl (gone, offers)))

    locked_path :
        (i : ℕ) (path : String) (paths : List String) (s : SendSession) (content : Bytes)
        → access.answers path ≡ true
        → lookup path disk ≡ some content
        → access.opens path ≡ false
        → Prepared i (path ∷ paths) s
    unfolding prepare_files file_dto Prepared Blocked
    locked_path i path paths s content answers stands locked = inl (
      rw (prepare_files, answers, stands, file_dto, locked) refl,
      inl (inr ((λ e. absurd (cc)), locked)),
    )

    offered_path :
        (i : ℕ) (path : String) (paths : List String) (s : SendSession) (content : Bytes)
        → access.answers path ≡ true
        → lookup path disk ≡ some content
        → access.opens path ≡ true
        → Fresh i s.transfer_files
        → ((next : SendSession) → Fresh (i + 1) next.transfer_files → Prepared (i + 1) paths next)
        → Prepared i (path ∷ paths) s
    unfolding prepare_files Prepared Blocked Offers Grows
    offered_path i path paths s content answers stands opened fresh later =
        let (dto, made, id, offer) = described i path content stands opened in
        let next = record s {
          transfer_files = emplace dto.file_id (entry_of path dto) s.transfer_files;
        } in
        let (fresh', grown, here) =
          emplaced_as i dto.file_id (entry_of path dto) s.transfer_files id fresh in
        elim (later next fresh') [
          | inl (run, blocked) ↦
              inl (rw (prepare_files, answers, stands, made, run) refl, inr blocked)
          | inr (dtos, s', run, grows, offers) ↦ inr (
            dto ∷ dtos,
            s',
            prepare_files-step i path paths s s' content dto dtos answers stands made run,
            λ k v known. grows k v (grown k v known),
            (
              answers,
              inr (
                dto,
                dtos,
                refl,
                offer s'.transfer_files (grows dto.file_id (entry_of path dto) here),
                offers,
              ),
            ),
          )
        ]

    prepares :
        (i : ℕ) (paths : List String) (s : SendSession)
        → Fresh i s.transfer_files
        → Prepared i paths s
    unfolding prepare_files Prepared Grows Offers
    prepares i [] s fresh = inr ([], s, refl, λ k v h. h, refl)
    prepares i (path ∷ paths) s fresh = elim (Bool-cases (access.answers path)) [
      | inr silent ↦ silent_path i path paths s silent
      | inl answers ↦ elim (Option-cases (lookup path disk)) [
        | inl gone ↦ absent_path i path paths s answers gone (prepares i paths s fresh)
        | inr (content, stands) ↦ elim (Bool-cases (access.opens path)) [
          | inr locked ↦ locked_path i path paths s content answers stands locked
          | inl opened ↦
              offered_path i path paths s content answers stands opened fresh
                (λ next fresh'. prepares (i + 1) paths next fresh')
        ]
      ]
    ]

    -- Preparing throws where the file system throws at one of the paths or a file that stands at one
    -- cannot be opened. Elsewhere it offers the files that stand at the paths, in order: under its
    -- name, with its size, the number of its chunks and its checksum, and with an entry in the table of
    -- the session, which has no token yet. The digest hashes the concatenation of its updates, and the
    -- identifiers that are drawn differ from each other and from those in the table.
    pub prepare_files-Offers :
        (paths : List String) (s : SendSession)
        → ((j : ℕ) → lookup (uuid j) s.transfer_files ≡ none)
        → ((prepare_files d uuid access disk 0 paths s ≡ none) × Blocked paths)
          ⊎ ((dtos : List FileDto) × (s' : SendSession) × (prepare_files d uuid access disk 0 paths
                  s
                ≡ some (dtos, s'))
              × Offers s'.transfer_files paths dtos)
    unfolding Fresh Prepared
    prepare_files-Offers paths s fresh = elim (prepares 0 paths s (λ j above. fresh j)) [
      | inl blocked ↦ inl blocked
      | inr (dtos, s', run, grows, offers) ↦ inr (dtos, s', run, offers)
    ]
