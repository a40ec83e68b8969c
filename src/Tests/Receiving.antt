-- ===== src/Tests/Receiving.antt =====
-- The receiving side at concrete inputs: a file of three bytes in blocks of two, whose first block was
-- written.
use lan_send.Base.{none, true, false, ◌≡◌, ◌≢◌, refl, ◌⊎◌, [], ◌∷◌, ◌++◌, arith, lookup, to_string}
use lan_send.Message.{Bytes, create_binary_message}
use lan_send.Hasher.{calculate_data_checksum, to_hex}
use lan_send.Path.{join, stem, extension}
use lan_send.Json.{Codec}
use lan_send.Naming.{exists, final_path}
use lan_send.Disk.{write_at}
use lan_send.Disk.Blocks.{block_at}
use lan_send.Http.{Body, forbidden}
use lan_send.Receive.{is_working, reset_to_idle, ReceiveController, Outcome, notify_sender_lost}
use lan_send.Receive.Chunk.{chunk_offset, contains, insert, on_send_chunk}
use lan_send.Receive.Chunk.Storage.{IsCut, Holds, Holds-nothing, Holds-write}
use lan_send.Receive.Chunk.Outcomes.{Expects, Accepts, chunk_of, received, on_send_chunk-stores}
use lan_send.Receive.Verify.{on_verify_integrity}
use lan_send.Receive.Verify.Saved.{Saves, on_verify_integrity-Saves}
use lan_send.Receive.Request.{
  Pending, Poll, begin_request, finish_request, wait_for_user_confirmation,
}
use lan_send.Receive.Request.Declined.{confirmed_request_refused, wait_ends}
use lan_send.Receive.Session.{IsConsistent}
use lan_send.Receive.System.{Server, Step, Reach, begun, Reach-IsConsistent}
use lan_send.Tests.Toy.{
  different, reading_io, identity_digest, identity_digest-IsStreaming, session_codec,
  session_codec-chunk, session_codec-verify, verification, request_line, working_io, file_of,
  idle_controller, receiving, offer, offered, entropy,
}

abbrev content : Bytes
content = 7 ∷ 8 ∷ 9 ∷ []

abbrev codec : Codec
codec = session_codec content 2

content-IsCut : IsCut content 2 2
content-IsCut = record {
  positive = omega arith;
  covers = omega arith;
  inside = λ i lt. omega arith;
  sized = omega arith;
}

-- The first block was written into an empty file.
first_held : Holds content 2 2 (0 ∷ []) (7 ∷ 8 ∷ [])
unfolding insert contains write_at chunk_offset
first_held = Holds-write content 2 2 content-IsCut 0 [] [] (omega arith) (Holds-nothing content 2 2)

abbrev half : ReceiveController
half = receiving (file_of 2 2 (0 ∷ [])) (("/d/f.part", 7 ∷ 8 ∷ []) ∷ [])

half-Expects : Expects content 2 2 "s" "f" half (file_of 2 2 (0 ∷ []))
unfolding lookup
half-Expects = record {
  working = refl;
  asks = refl;
  session = refl;
  registered = refl;
  cut = refl;
  holds = first_held;
}

on_send_chunk-stores_example : Accepts content 2 2 "s" "f" (received 1 (file_of 2 2 (0 ∷ []))) (
    on_send_chunk identity_digest codec working_io false request_line
      (create_binary_message codec.dump
        (codec.to_send_chunk (chunk_of identity_digest "s" "f" "t" 1 (block_at content 2 1)))
        (block_at content 2 1))
      half)
on_send_chunk-stores_example =
    on_send_chunk-stores content 2 2 "s" "f" (file_of 2 2 (0 ∷ [])) 1 identity_digest codec half
      working_io request_line content-IsCut (omega arith) (session_codec-chunk content 2 1)
      (omega arith) (record { opens = refl; creates = refl; roomy = omega arith }) half-Expects

all_held : Holds content 2 2 (1 ∷ 0 ∷ []) content
unfolding insert contains write_at chunk_offset
all_held = Holds-write content 2 2 content-IsCut 1 (0 ∷ []) (7 ∷ 8 ∷ []) (omega arith) first_held

-- Beside it stands a file of the same name.
abbrev complete : ReceiveController
complete = receiving (file_of 2 2 (1 ∷ 0 ∷ [])) (("/d/f.part", content) ∷ ("/d/a.txt", []) ∷ [])

complete-Expects : Expects content 2 2 "s" "f" complete (file_of 2 2 (1 ∷ 0 ∷ []))
unfolding lookup
complete-Expects = record {
  working = refl;
  asks = refl;
  session = refl;
  registered = refl;
  cut = refl;
  holds = all_held;
}

on_verify_integrity-Saves_example :
    (exists "/d/a (1).txt" complete.disk ≡ false)
    × Saves "/d/a (1).txt" content (
        on_verify_integrity identity_digest codec reading_io false request_line
          (codec.dump (codec.to_verify_integrity verification))
          complete)
unfolding final_path calculate_data_checksum lookup to_hex exists join stem to_string extension
on_verify_integrity-Saves_example =
    on_verify_integrity-Saves content 2 2 "s" "f" "/d/a (1).txt" (file_of 2 2 (1 ∷ 0 ∷ []))
      identity_digest codec complete reading_io request_line content-IsCut
      identity_digest-IsStreaming (session_codec-verify content 2) refl refl (omega arith)
      complete-Expects refl refl refl refl (different "/d/f.part" "/d/a (1).txt" refl, tt)

abbrev body : Bytes
body = codec.dump (codec.to_verify_integrity verification)

abbrev asked : Pending
asked = record { req = request_line; dto = offer }

confirmed_request_refused_example :
    ((is_working complete.session_status ≡ true)
      × (finish_request entropy asked none complete ≡ (
        reset_to_idle complete,
        Outcome.responded (forbidden request_line (Body.text "declined")),
      )))
    ⊎ ((is_working complete.session_status ≡ false)
        × (finish_request entropy asked none complete ≡ (
          complete,
          Outcome.responded (forbidden request_line (Body.text "sender cancelled")),
        )))
unfolding wait_for_user_confirmation
confirmed_request_refused_example =
    confirmed_request_refused
      ((complete, Poll.no_answer 3) ∷ (complete, Poll.answer ("a.txt" ∷ [])) ∷ []) asked none
      entropy complete refl

wait_ends_example :
    wait_for_user_confirmation true ([] ++ (complete, Poll.no_answer 30) ∷ []) (offered ∷ []) ≢ none
wait_ends_example = wait_ends [] [] complete 30 (offered ∷ []) (omega arith)

-- The sender asks and is then lost.
abbrev fresh : Server
fresh = record { controller = idle_controller []; waiting = [] }

abbrev opened : Server
opened = record {
  controller = (begin_request codec request_line (0 ∷ 0 ∷ []) fresh.controller).0;
  waiting = begun (begin_request codec request_line (0 ∷ 0 ∷ []) fresh.controller).1 [];
}

fresh-IsConsistent : IsConsistent fresh.controller
fresh-IsConsistent = record {
  idle_cleared = λ _. (refl, refl, refl, refl, refl);
  files_have_id = λ _. refl;
  distinct = tt;
}

Reach-IsConsistent_example : IsConsistent (notify_sender_lost opened.controller)
Reach-IsConsistent_example =
    Reach-IsConsistent identity_digest codec fresh
      (record opened { controller = notify_sender_lost opened.controller }) fresh-IsConsistent
      (Reach.next (Reach.next Reach.here (Step.requests request_line (0 ∷ 0 ∷ [])))
        Step.loses_sender)
