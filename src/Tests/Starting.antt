-- ===== src/Tests/Starting.antt =====
-- A session that starts: what it prepares, and how it ends.
use mathlib.Core.List.{Perm}
use lan_send.Send.Start.Order.{Ascends, Sends, sending_of, send_all-Sends}
use lan_send.Send.{feedback}
use lan_send.Send.Start.{send_all}
use lan_send.Model.{Feedback, What}
use lan_send.Base.{
  Bool, map, if◌then◌else◌, not, str_eq, to_string, scan, scan-to_string, ap, sym, ◌∙◌, ◌<>◌,
  Option, String, false, none, ◌+◌, ◌⊎◌, some, ℕ, true, ◌≡◌, refl, List, [], ◌∷◌, lookup,
}
use lan_send.Model.{FileDto, RequestSendResponseDto, SessionStatus}
use lan_send.Send.{Network, Connection, SendSession, default_chunk_size}
use lan_send.FileType.{FileType, get_file_type}
use lan_send.Path.{filename, extension}
use lan_send.Http.{Body}
use lan_send.Send.Prepare.{FileAccess, chunk_count, emplace, file_dto, prepare_files}
use lan_send.Hasher.{calculate_data_checksum, to_hex}
use lan_send.Hasher.Streaming.{checksum_of_stream-eq-data}
use lan_send.Naming.{Disk}
use lan_send.Send.Start.{start, negotiate, Negotiated}
use lan_send.Send.Start.Negotiation.{has_ended, StaysBusy}
use lan_send.Send.Start.Ends.{request_over, start-ends}
use lan_send.Send.Prepare.Offers.{Blocked, Offers, prepare_files-Offers}
use lan_send.Tests.Toy.{device, identity_digest-IsStreaming, identity_digest}
use lan_send.Tests.Sending.{codec, content, session}

-- A receiver that declines every request.
abbrev declining : Network
declining = record {
  State = ℕ;
  connect = λ host port n. (Connection.connected "10.0.0.9" 50000, n);
  is_connected = λ n. true;
  exchange = λ route body n. (
    record {
      reply = some (record { status = 403; body = Body.text "declined" });
      cancelled = false;
    },
    n + 1,
  );
  disconnect = λ n. n;
  sleep = λ n. (false, n);
}

abbrev new_session : SendSession
new_session = record session { transfer_files = []; session_status = SessionStatus.idle }

abbrev file : FileDto
file = record {
  file_id = "f";
  file_name = "a.txt";
  file_size = 3;
  chunk_size = default_chunk_size;
  total_chunks = 1;
  file_checksum = "070809";
  file_type = FileType.text;
}

abbrev prepared_session : SendSession
prepared_session = record new_session {
  transfer_files =
      ("f", record { file_path = "/h/a.txt"; file_size = 3; total_chunks = 1; file_token = "" })
      ∷ [];
}

abbrev waiting_session : SendSession
waiting_session = record prepared_session { session_status = SessionStatus.waiting }

abbrev open_access : FileAccess
open_access = record { answers = λ path. true; opens = λ path. true }

-- One of the files cannot be opened.
abbrev partly_open : FileAccess
partly_open = record { answers = λ path. true; opens = λ path. not (str_eq path "/h/b.txt") }

abbrev disk : Disk
disk = ("/h/a.txt", content) ∷ []

prepared :
    prepare_files identity_digest (λ i. "f") open_access disk 0 ("/h/a.txt" ∷ []) new_session
    ≡ some (file ∷ [], prepared_session)
unfolding prepare_files file_dto chunk_count emplace lookup calculate_data_checksum to_hex
    default_chunk_size filename extension get_file_type
prepared =
    rw
      (
        prepare_files,
        file_dto,
        checksum_of_stream-eq-data identity_digest identity_digest-IsStreaming content,
      )
      refl

abbrev no_answer : Body → Option RequestSendResponseDto
no_answer body = none

start-ends_example :
    ((s' : SendSession) × (n : ℕ) × (start declining codec no_answer identity_digest disk
          (λ i. "f")
          open_access
          1
          device
          ("/h/a.txt" ∷ [])
          "10.0.0.7"
          40000
          new_session
          0
        ≡ some (s', n))
      × (has_ended s'.session_status ≡ true))
    ⊎ ((ip : String) × (local_port : ℕ) × (Connection.connected "10.0.0.9" 50000
          ≡ Connection.connected ip local_port)
        × ((negotiate declining codec no_answer 1
                (request_over device (file ∷ []) ip local_port)
                waiting_session
                0
              ≡ Negotiated.undefined)
            ⊎ StaysBusy declining codec no_answer 1
                (request_over device (file ∷ []) ip local_port)
                waiting_session
                0))
start-ends_example =
    start-ends declining codec no_answer identity_digest disk (λ i. "f") open_access 1 device
      ("/h/a.txt" ∷ []) "10.0.0.7" 40000 new_session 0 file [] prepared_session prepared refl

to_string_apart : (i j : ℕ) → to_string i ≡ to_string j → i ≡ j
to_string_apart i j e =
    let number = λ (n : ℕ). ap (λ (p : ℕ × String). p.0) (scan-to_string n "" refl) in
    sym (number i) ∙ ap (λ (s : String). (scan (s <> "") 0).0) e ∙ number j

prepare_files-Offers_example :
    ((prepare_files identity_digest to_string partly_open disk 0
          ("/h/a.txt" ∷ "/h/b.txt" ∷ [])
          new_session
        ≡ none)
      × Blocked identity_digest partly_open disk ("/h/a.txt" ∷ "/h/b.txt" ∷ []))
    ⊎ ((dtos : List FileDto) × (s' : SendSession) × (prepare_files identity_digest to_string
            partly_open disk 0
            ("/h/a.txt" ∷ "/h/b.txt" ∷ [])
            new_session
          ≡ some (dtos, s'))
        × Offers identity_digest partly_open disk s'.transfer_files
            ("/h/a.txt" ∷ "/h/b.txt" ∷ [])
            dtos)
unfolding lookup
prepare_files-Offers_example =
    prepare_files-Offers identity_digest partly_open disk to_string identity_digest-IsStreaming
      to_string_apart ("/h/a.txt" ∷ "/h/b.txt" ∷ []) new_session (λ j. refl)

-- Two files, of which the second one is smaller and is not on the disk of the sender.
abbrev two_files : SendSession
two_files = record new_session {
  transfer_files =
      ("f", record { file_path = "/h/a.txt"; file_size = 3; total_chunks = 1; file_token = "t" })
      ∷ ("g", record { file_path = "/h/y.txt"; file_size = 2; total_chunks = 1; file_token = "u" })
      ∷ [];
}

send_all-Sends_example :
    (files : List (String × ℕ)) × (all : Bool) × (s' : SendSession) × (n : ℕ) × Ascends files
    × Perm files (
        map
          (λ f. (f.0, f.1.file_size))
          (sending_of declining codec no_answer identity_digest disk two_files).transfer_files)
    × Sends declining codec no_answer identity_digest disk files
        (sending_of declining codec no_answer identity_digest disk two_files)
        0
        all
        s'
        n
    × (send_all declining codec no_answer identity_digest disk two_files 0 ≡ (
        if all
        then (
          feedback
              (Feedback.send_session_ended s'.session_id "" true false What.no_text)
              (record s' { session_status = SessionStatus.completed }),
          n,
        )
        else (s', n)))
send_all-Sends_example = send_all-Sends declining codec no_answer identity_digest disk two_files 0
