-- ===== src/Duplex/Queued.antt =====
-- What the operations of src/duplex.rs put into the queue.
use idf_remote.Base.{
  ℕ, ◌+◌, ◌≡◌, inl, inr, refl, List, [], ◌∷◌, All, Bytes, Option, none, some, Result, Result-cases,
  err, ok, >>=-eq-ok, >>-eq-ok, Bool-cases,
}
use mathlib.Core.List.{Memᴰ}
use idf_remote.Mux.Frame
use idf_remote.Mux.Frame.{Frame}
use idf_remote.Application.Json.{Value, Serde, Command, AppError, session_lost}
use idf_remote.Application.Session.{
  Session, begin_connect, prepare_request, encode_frame, encode_all, console_frames,
  prepare_console, chunks,
}
use idf_remote.Duplex.State.{
  Pending, Transfer, Duplex, queue_wire, queue_application, send_request, start_request,
  start_connect, start_free, start_application, input_frames, queue_input, has_input, start_input,
}
use idf_remote.Duplex.Turns.{IsUnit, IsOrderly, partial, append-IsOrderly}

module _ (inputs : List Bytes) where
  -- The queue keeps its order, and the part of the front that is written.
  abbrev pub IsKept : {N : Type 0} → List (Transfer N) → List (Transfer N) → Type 0
  IsKept tx tx' = IsOrderly inputs tx' × (partial tx' ≡ partial tx)

  from_ok :
      (xs ys : List Bytes)
      → All (IsUnit inputs) xs
      → ◌≡◌ {A = Result AppError (List Bytes)} (ok xs) (ok ys)
      → All (IsUnit inputs) ys
  from_ok xs ys u e = let same : xs ≡ ys = cc in rw same at u

  encode_all-units :
      (fs : List Frame) (wires : List Bytes) → encode_all fs ≡ ok wires → All (IsUnit inputs) wires
  unfolding encode_all
  encode_all-units [] wires e = from_ok [] wires tt e
  encode_all-units (f ∷ fs) wires e =
      let (wire, one, e') = >>=-eq-ok (encode_frame f) _ e in
      let (rest, more, same) = >>=-eq-ok (encode_all fs) _ e' in
      from_ok (wire ∷ rest) wires (inl (f, one), encode_all-units fs rest more) same

  plain-units :
      (text : Bytes) (wires : List Bytes)
      → Memᴰ text inputs
      → ((wire : Bytes) → Memᴰ wire wires → Memᴰ wire (chunks 256 text))
      → All (IsUnit inputs) wires
  plain-units text [] entered cut = tt
  plain-units text (wire ∷ wires) entered cut = (
    inr (text, entered, cut wire (Memᴰ.head refl)),
    plain-units text wires entered (λ x m. cut x (Memᴰ.tail m)),
  )

  module _ {N : Type 0} where
    input_frames-units :
        (o : Option (Session N)) (bytes : Bytes) (frames : List Bytes)
        → Memᴰ bytes inputs
        → input_frames o bytes ≡ ok frames
        → All (IsUnit inputs) frames
    unfolding input_frames prepare_console
    input_frames-units none bytes frames m e =
        from_ok (chunks 256 bytes) frames (plain-units bytes (chunks 256 bytes) m (λ x k. k)) e
    input_frames-units (some session) bytes frames m e =
        let (valid, e') = >>-eq-ok session.valid session_lost _ e in
        encode_all-units (console_frames session.nonce (chunks 256 bytes)) frames e'

    queue_application-IsKept :
        (d : Duplex N) (key : Bytes) (deadline kind : ℕ) (f : Frame)
        → IsOrderly inputs d.tx
        → IsKept d.tx (queue_application d key deadline kind f).0.tx
    unfolding queue_application queue_wire
    queue_application-IsKept d key deadline kind f o = elim (Result-cases (encode_frame f)) [
      | inr (why, e) ↦ rw e (o, refl)
      | inl (wire, e) ↦ rw e (append-IsOrderly inputs d.tx _ o (inl (f, e), tt) refl)
    ]

    send_request-IsKept :
        (d : Duplex N) (key : Bytes) (deadline : ℕ) (prepared : Result AppError (Session N × Frame))
        → IsOrderly inputs d.tx
        → IsKept d.tx (send_request d key deadline prepared).0.tx
    unfolding send_request
    send_request-IsKept d key deadline (err why) o = (o, refl)
    send_request-IsKept d key deadline (ok (session, f)) o =
        queue_application-IsKept (record d { session = some session }) key deadline Frame.response f
          o

    start_connect-IsKept :
        (d : Duplex N) (key : Bytes) (deadline fresh : ℕ) (tx : List (Transfer N))
        → IsOrderly inputs d.tx
        → IsKept d.tx (start_connect d key deadline fresh tx).0.tx
    unfolding start_connect
    start_connect-IsKept d key deadline fresh [] o =
        let (session, f) = begin_connect N fresh in
        queue_application-IsKept (record d { session = some session }) key deadline Frame.hello_ack
          f o
    start_connect-IsKept d key deadline fresh (t ∷ ts) o = (o, refl)

    start_request-IsKept :
        (serde : Serde N) (d : Duplex N) (key : Bytes) (deadline : ℕ) (s : Option (Session N))
        (c : Command N)
        → IsOrderly inputs d.tx
        → IsKept d.tx (start_request serde d key deadline s c).0.tx
    unfolding start_request
    start_request-IsKept serde d key deadline none c o = (o, refl)
    start_request-IsKept serde d key deadline (some s) c o =
        send_request-IsKept d key deadline (prepare_request serde s c) o

    start_free-IsKept :
        (serde : Serde N) (d : Duplex N) (key : Bytes) (command : Option (Command N))
        (deadline fresh : ℕ) (w : Option Pending)
        → IsOrderly inputs d.tx
        → IsKept d.tx (start_free serde d key command deadline fresh w).0.tx
    unfolding start_free
    start_free-IsKept serde d key command deadline fresh (some w) o = (o, refl)
    start_free-IsKept serde d key none deadline fresh none o =
        start_connect-IsKept d key deadline fresh d.tx o
    start_free-IsKept serde d key (some c) deadline fresh none o =
        start_request-IsKept serde d key deadline d.session c o

    pub start_application-IsKept :
        (serde : Serde N) (d : Duplex N) (key : Bytes) (command : Option (Command N))
        (time timeout fresh : ℕ)
        → IsOrderly inputs d.tx
        → IsKept d.tx (start_application serde d key command time timeout fresh).0.tx
    unfolding start_application
    start_application-IsKept serde d key command time timeout fresh o =
        start_free-IsKept serde d key command (time + timeout) fresh d.pending o

    pub start_input-IsKept :
        (d : Duplex N) (key bytes : Bytes) (time timeout : ℕ) (result : Value N)
        → Memᴰ bytes inputs
        → IsOrderly inputs d.tx
        → IsKept d.tx (start_input d key bytes time timeout result).0.tx
    unfolding start_input queue_input
    start_input-IsKept d key bytes time timeout result m o = elim (Bool-cases (has_input d.tx)) [
      | inl busy ↦ rw busy (o, refl)
      | inr free ↦ elim (Result-cases (input_frames d.session bytes)) [
        | inr (why, e) ↦ rw (free, e) (o, refl)
        | inl (frames, e) ↦
            rw (free, e)
              (append-IsOrderly inputs d.tx _ o (input_frames-units d.session bytes frames m e)
                refl)
      ]
    ]
