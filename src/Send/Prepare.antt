-- ===== src/Send/Prepare.antt =====
-- SendSession::prepareFiles (send_session.cc, lines 69 to 105).
pub mod Offers
use lan_send.Base.{
  Bool, true, false, ℕ, ◌+◌, ◌-◌, ◌/◌, ◌%◌, ◌^◌, String, Option, none, some, Assoc, lookup, List,
  [], ◌∷◌, ◌++◌, length,
}
use lan_send.Message.{Bytes}
use lan_send.Hasher.{Digest, checksum_of_stream}
use lan_send.Naming.{Disk}
use lan_send.Path.{filename}
use lan_send.FileType.{get_file_type}
use lan_send.Model.{FileDto}
use lan_send.Send.{SendSession, TransferFileInfo, default_chunk_size}

-- unordered_map::emplace: a key that is present keeps its value.
unfoldable pub emplace {ℓ} : {V : Type ℓ} → String → V → Assoc V → Assoc V
emplace k v m = elim (lookup k m) [ none ↦ m ++ (k, v) ∷ [] | some old ↦ m ]

-- (size + chunk_size - 1) / chunk_size, in std::size_t
unfoldable pub chunk_count : ℕ → ℕ → ℕ
chunk_count size chunk_size = ((size + (chunk_size - 1)) % 2 ^ 64) / chunk_size

-- What the file system says of a path: `answers` is false where fs::exists or fs::file_size throws, as
-- fs::file_size does for a directory, and `opens` tells whether std::ifstream can open the file there.
pub record FileAccess : Type 0 where
  pub answers : String → Bool
  pub opens : String → Bool

module _ (d : Digest) (uuid : ℕ → String) (access : FileAccess) (disk : Disk) where
  -- The metadata of one file; `none` where the checksum throws, as it does for a file that cannot be
  -- opened.
  unfoldable pub file_dto : ℕ → String → Bytes → Option FileDto
  unfolding chunk_count
  file_dto i path content = elim (access.opens path) [
    | false ↦ none
    | true ↦ elim (checksum_of_stream d content) [
      | none ↦ none
      | some checksum ↦ some (record {
        file_id = uuid i;
        file_name = filename path;
        file_size = length content;
        chunk_size = default_chunk_size;
        total_chunks = chunk_count (length content) default_chunk_size;
        file_checksum = checksum;
        file_type = get_file_type path;
      })
    ]
  ]

  -- A path at which no file stands is left out; `uuid i` is the i-th identifier that
  -- random_generator draws. `none` where the file system or a checksum throws.
  unfoldable pub prepare_files : ℕ → List String → SendSession → Option (List FileDto × SendSession)
  unfolding file_dto
  prepare_files i [] s = some ([], s)
  prepare_files i (path ∷ paths) s = elim (access.answers path) [
    | false ↦ none
    | true ↦ elim (lookup path disk) [
      | none ↦ prepare_files i paths s
      | some content ↦ elim (file_dto i path content) [
        | none ↦ none
        | some dto ↦
            let info : TransferFileInfo = record {
              file_path = path;
              file_size = dto.file_size;
              total_chunks = dto.total_chunks;
              file_token = "";
            } in
            elim (prepare_files (i + 1) paths
              (record s { transfer_files = emplace dto.file_id info s.transfer_files })) [
                | none ↦ none
                | some (dtos, s') ↦ some (dto ∷ dtos, s')
              ]
      ]
    ]
  ]
