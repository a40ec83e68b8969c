-- ===== src/Tests/Operating.antt =====
-- Operations of a user, and a connection to another device.
use lan_send.Base.{String, none, some, true, false, ◌≡◌, refl, List, [], ◌∷◌, ◌++◌, arith}
use lan_send.Model.{Feedback}
use lan_send.Tests.Toy.{device}
use lan_send.Settings.{Settings}
use lan_send.Ipc.Operation.{OperationType, Operation, OperationCodec}
use lan_send.Ipc.EventStream.{IpcEventStream}
use lan_send.Ipc.EventStream.Order.{
  Call, after, all_handed, all_taken, all_shown, all_told, after-queues,
}
use lan_send.Ipc.Backend.{IpcBackendService, dispatch_operation, rounds}
use lan_send.Ipc.Backend.Rounds.{with_queue, dispatch_all, rounds-exit}
use lan_send.Ipc.Backend.Addressed.{CallsAddressed, rounds-addressed}

-- The document of an operation is a text.
abbrev pub texts : OperationCodec
texts = record {
  Doc = String;
  from_send_files = λ id. some (record { device_id = id; file_paths = "/a.txt" ∷ [] });
  from_cancel_wait = λ id. some id;
  from_cancel_send = λ id. some id;
  from_confirm_receive = λ t. some (record { accepted = true; accepted_files = some (t ∷ []) });
  from_connect_to_device = λ id. some (record { device_id = id; pin_code = "1234" });
  from_modify_settings = λ t. some (record { key = "pin-code"; value = t });
  to_port = λ t. none;
  to_text = λ t. some t;
  to_bool = λ t. none;
}

abbrev pub operation : OperationType → Operation String
operation t = record { type = t; payload = "dev" }

abbrev settings : Settings
settings = record { port = 56789; pin_code = "1234"; auto_receive = false; save_dir = "/d" }

abbrev pub service : IpcBackendService
service = record {
  discovery_manager = record {
    device_id = "own";
    discovered_devices = ("dev", record { device = device; last_seen = 5 }) ∷ [];
    has_found_callback = true;
    has_lost_callback = true;
    notices = [];
    listening = true;
  };
  settings = settings;
  client_calls = [];
  is_running = true;
  server_running = true;
  io_stopped = false;
  has_exit_callback = true;
  exits = 0;
}

abbrev pub quiet : IpcEventStream String
quiet = record {
  active_operations = [];
  confirm_receive_operation = none;
  cancel_receive_operation = false;
  feedbacks = [];
}

abbrev calls : List (Call texts)
calls =
    Call.posts (operation OperationType.connect_to_device)
    ∷ Call.posts (operation OperationType.respond_to_receive_request)
    ∷ Call.tells Feedback.network_error
    ∷ Call.polls_operation
    ∷ Call.polls_feedback
    ∷ []

after-queues_example :
    (all_handed texts calls quiet ++ (after texts calls quiet).active_operations
      ≡ quiet.active_operations ++ all_taken texts calls)
    × (all_shown texts calls quiet ++ (after texts calls quiet).feedbacks
        ≡ quiet.feedbacks ++ all_told texts calls)
after-queues_example = after-queues texts calls quiet

rounds-exit_example :
    rounds texts 3 (
      with_queue
          (operation OperationType.connect_to_device
            ∷ operation OperationType.exit_app
            ∷ operation OperationType.cancel_send
            ∷ [])
          quiet,
      service,
    )
    ≡ (
      with_queue (operation OperationType.cancel_send ∷ []) quiet,
      dispatch_operation texts
          (operation OperationType.exit_app)
          (dispatch_all texts (operation OperationType.connect_to_device ∷ []) service),
    )
rounds-exit_example =
    rounds-exit texts (operation OperationType.connect_to_device ∷ [])
      (operation OperationType.cancel_send ∷ []) (operation OperationType.exit_app) 3 quiet service
      refl ((λ e. cc), tt) refl (omega arith)

rounds-addressed_example :
    CallsAddressed
      (rounds texts 2 (
        with_queue
            (operation OperationType.send_files ∷ operation OperationType.connect_to_device ∷ [])
            quiet,
        service,
      )).1
rounds-addressed_example =
    rounds-addressed texts 2
      (with_queue
        (operation OperationType.send_files ∷ operation OperationType.connect_to_device ∷ []) quiet)
      service tt
