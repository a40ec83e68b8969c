-- ===== src/Send/Start/Order.antt =====
-- SendSession::Start: the order in which the files are sent.
use mathlib.Core.List.{Perm}
use mathlib.Core.List.Perm
use lan_send.Base.{
  ℕ, ◌≤◌, ◌≡◌, refl, String, Bool, true, false, ◌||◌, if◌then◌else◌, if_cases, leb, leb→le, Option,
  List, [], ◌∷◌, map, arith, Bool-cases, inl, inr,
}
use lan_send.Hasher.{Digest}
use lan_send.Json.{Codec}
use lan_send.Naming.{Disk}
use lan_send.Http.{Body}
use lan_send.Model.{SessionStatus, Feedback, What, RequestSendResponseDto}
use lan_send.Send.{SendSession, Network, feedback, is_cancelled}
use lan_send.Send.Transfer.{send_file}
use lan_send.Send.Start.{insert_by_size, sort_by_size, is_failed, send_files, send_all}

abbrev pub AtLeast : ℕ → List (String × ℕ) → Type 0
AtLeast n [] = Unit {0}
AtLeast n (x ∷ xs) = (n ≤ x.1) × AtLeast n xs

-- The sizes do not fall.
abbrev pub Ascends : List (String × ℕ) → Type 0
Ascends [] = Unit {0}
Ascends (x ∷ xs) = AtLeast x.1 xs × Ascends xs

AtLeast-lower : (m n : ℕ) (xs : List (String × ℕ)) → m ≤ n → AtLeast n xs → AtLeast m xs
AtLeast-lower m n [] le h = tt
AtLeast-lower m n (x ∷ xs) le h = (omega (arith, le, h.0), AtLeast-lower m n xs le h.1)

AtLeast-insert :
    (n : ℕ) (x : String × ℕ) (xs : List (String × ℕ))
    → n ≤ x.1
    → AtLeast n xs
    → AtLeast n (insert_by_size x xs)
unfolding insert_by_size
AtLeast-insert n x [] le h = (le, tt)
AtLeast-insert n x (y ∷ ys) le h = elim (Bool-cases (leb x.1 y.1)) [
  | inl e ↦ rw e (le, h)
  | inr e ↦ rw e (h.0, AtLeast-insert n x ys le h.1)
]

insert-Ascends :
    (x : String × ℕ) (xs : List (String × ℕ)) → Ascends xs → Ascends (insert_by_size x xs)
unfolding insert_by_size
insert-Ascends x [] h = (tt, tt)
insert-Ascends x (y ∷ ys) h = elim (Bool-cases (leb x.1 y.1)) [
  | inl e ↦ let le = leb→le x.1 y.1 e in rw e ((le, AtLeast-lower x.1 y.1 ys le h.0), h)
  | inr e ↦ rw e (AtLeast-insert y.1 x ys (ground (arith, e)) h.0, insert-Ascends x ys h.1)
]

insert-perm : (x : String × ℕ) (xs : List (String × ℕ)) → Perm (insert_by_size x xs) (x ∷ xs)
unfolding insert_by_size
insert-perm x [] = Perm.refl (x ∷ [])
insert-perm x (y ∷ ys) = elim (Bool-cases (leb x.1 y.1)) [
  | inl e ↦ rw e (Perm.refl (x ∷ y ∷ ys))
  | inr e ↦ rw e (Perm.trans (Perm.cons _ (insert-perm x ys)) (Perm.swap x y ys))
]

sort_by_size-Ascends :
    (files : List (String × ℕ)) → Ascends (sort_by_size files) × Perm (sort_by_size files) files
unfolding sort_by_size
sort_by_size-Ascends [] = (tt, Perm.nil)
sort_by_size-Ascends (x ∷ xs) =
    let (ascends, same) = sort_by_size-Ascends xs in
    (
      insert-Ascends x (sort_by_size xs) ascends,
      Perm.trans (insert-perm x (sort_by_size xs)) (Perm.cons x same),
    )

module _ (net : Network) (json : Codec) (read : Body → Option RequestSendResponseDto) (d : Digest)
    (disk : Disk) where
  -- The files of the list are sent one after the other, each by sendFile from where the one before
  -- left the session and the network. The last one sent is the first that leaves the session cancelled
  -- or failed, where the Boolean is false, or else the last of the list, where it is true.
  pub data Sends
      : List (String × ℕ) → SendSession → net.State → Bool → SendSession → net.State → Type 0 where
    all_sent : (s : SendSession) (w : net.State) → Sends [] s w true s w
    stops :
        (file_id : String) (size : ℕ) (files : List (String × ℕ)) (s s' : SendSession)
        (w w' : net.State)
        → send_file net json d disk file_id s w ≡ (s', w')
        → is_cancelled s'.session_status || is_failed s'.session_status ≡ true
        → Sends ((file_id, size) ∷ files) s w false s' w'
    goes_on :
        (file_id : String) (size : ℕ) (files : List (String × ℕ)) (s s' s'' : SendSession)
        (w w' w'' : net.State) (all : Bool)
        → send_file net json d disk file_id s w ≡ (s', w')
        → is_cancelled s'.session_status || is_failed s'.session_status ≡ false
        → Sends files s' w' all s'' w''
        → Sends ((file_id, size) ∷ files) s w all s'' w''

  Run : List (String × ℕ) → SendSession → net.State → (Bool × SendSession) × net.State → Type 0
  Run files s w r = Sends files s w r.0.0 r.0.1 r.1

  send_files-Run :
      (files : List (String × ℕ)) (s : SendSession) (w : net.State)
      → Run files s w (send_files net json read d disk files s w)
  unfolding send_files Run
  send_files-Run [] s w = Sends.all_sent s w
  send_files-Run ((file_id, size) ∷ files) s w =
      let r = send_file net json d disk file_id s w in
      if_cases (Run ((file_id, size) ∷ files) s w)
        (is_cancelled r.0.session_status || is_failed r.0.session_status) _ _
        (λ e. Sends.stops file_id size files s r.0 w r.1 refl e)
        (λ e.
          Sends.goes_on file_id size files s r.0 _ w r.1 _ _ refl e (send_files-Run files r.0 r.1))

  -- What the accepted session is before its first file.
  abbrev pub sending_of : SendSession → SendSession
  sending_of s = record (feedback (Feedback.recipient_accepted s.receiver_device_id) s) {
    session_status = SessionStatus.sending;
  }

  -- When the receiver has accepted, the files of the session are sent, each one once, in an order in
  -- which their sizes do not fall, up to the first one that leaves the session cancelled or failed.
  -- If there is none, the session is completed, and the user is told that it ended.
  pub send_all-Sends :
      (s : SendSession) (w : net.State)
      → (files : List (String × ℕ)) × (all : Bool) × (s' : SendSession) × (w' : net.State) × Ascends
          files
        × Perm files (map (λ f. (f.0, f.1.file_size)) (sending_of s).transfer_files)
        × Sends files (sending_of s) w all s' w'
        × (send_all net json read d disk s w ≡ (
            if all
            then (
              feedback
                  (Feedback.send_session_ended s'.session_id "" true false What.no_text)
                  (record s' { session_status = SessionStatus.completed }),
              w',
            )
            else (s', w')))
  unfolding send_all Run
  send_all-Sends s w =
      let listed = map (λ f. (f.0, f.1.file_size)) (sending_of s).transfer_files in
      let order = sort_by_size-Ascends listed in
      let r = send_files net json read d disk (sort_by_size listed) (sending_of s) w in
      (
        sort_by_size listed,
        r.0.0,
        r.0.1,
        r.1,
        order.0,
        order.1,
        send_files-Run (sort_by_size listed) (sending_of s) w,
        refl,
      )
