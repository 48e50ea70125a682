-- ===== src/Duplex/Stream.antt =====
-- What is on a stream that the scheduler of src/duplex.rs writes to, from its opening on.
use idf_remote.Base.{
  All-map, ℕ, ◌≤◌, ◌≡◌, inl, inr, refl, sym, ap, ◌∙◌, List, [], ◌∷◌, ◌++◌, append_assoc, All,
  All-append, Bytes, Option, none, some, Result, err, ok, Bool-cases, length, take,
}
use mathlib.Core.List.{Memᴰ}
use idf_remote.Store.Reconnect.{Output}
use idf_remote.Application.Json.{Value, Serde, Command, AppError}
use idf_remote.Application.Session.{Session, Reply, process}
use idf_remote.Application.Send.{join, join-append}
use idf_remote.Duplex.State.{Pending, Transfer, Duplex, start_application, start_input, new}
use idf_remote.Duplex.Steps.{
  wrote, passing, Texts, Ended, any_late, offered, on_write, tick_frames, tick_front, tick,
  on_reply, fed, feed_reply, feed_outcome, feed_to, feed, expected_at, take_turns,
}
use idf_remote.Duplex.Turns.{
  IsUnit, IsUnit-later, IsOrderly, IsOrderly-later, partial, take_turns-IsOrderly,
}
use idf_remote.Duplex.Queued.{IsKept, start_application-IsKept, start_input-IsKept}
use idf_remote.Duplex.Written.{IsStep, expire-tx, and_expire-tx, tick-IsStep}

module _ (inputs : List Bytes) {N : Type 0} where
  passing_frames :
      (d : Duplex N) (time : ℕ) (t : Transfer N) (ts : List (Transfer N)) (frames : List Bytes)
      → d.tx ≡ t ∷ ts
      → IsOrderly inputs (t ∷ ts)
      → t.frames ≡ frames
      → IsKept inputs (t ∷ ts) (tick_frames d time passing t ts frames).0.tx
  unfolding tick_frames on_write IsOrderly partial
  passing_frames d time t ts [] e (u, us, hs) f =
      let turn = take_turns t ts in
      rw (and_expire-tx d time turn.0 turn.1) (take_turns-IsOrderly inputs t ts u us hs)
  passing_frames d time t ts (bytes ∷ rest) e o f = rw (expire-tx d time, e) (o, refl)

  passing_front :
      (d : Duplex N) (time : ℕ) (tx : List (Transfer N))
      → d.tx ≡ tx
      → IsOrderly inputs tx
      → IsKept inputs tx (tick_front d time passing tx).0.tx
  unfolding tick_front
  passing_front d time [] e o = rw (and_expire-tx d time [] []) (o, refl)
  passing_front d time (t ∷ ts) e o = passing_frames d time t ts t.frames e o refl

  tick-passing :
      (d : Duplex N) (clock : ℕ → ℕ) (time : ℕ)
      → IsOrderly inputs d.tx
      → IsKept inputs d.tx (tick d clock time passing).0.tx
  unfolding tick
  tick-passing d clock time o = elim (Bool-cases (any_late clock d.tx)) [
    | inl late ↦ rw late (o, refl)
    | inr early ↦ rw early (passing_front d time d.tx refl o)
  ]

module _ {N : Type 0} where
  fed-tx :
      (serde : Serde N) (texts : Texts N) (d : Duplex N) (later : ℕ)
      (emitted : List (Output (Value N))) (done : Ended N)
      → (fed serde texts d later emitted done).duplex.tx ≡ d.tx
  unfolding fed
  fed-tx serde texts d later emitted done = expire-tx d later

  feed_reply-tx :
      (serde : Serde N) (texts : Texts N) (d : Duplex N) (session : Session N) (later : ℕ)
      (emitted : List (Output (Value N))) (reply : Reply N) (w : Option Pending)
      → (feed_reply serde texts d session later emitted reply w).duplex.tx ≡ d.tx
  unfolding feed_reply on_reply
  feed_reply-tx serde texts d session later emitted reply none = refl
  feed_reply-tx serde texts d session later emitted reply (some w) =
      let (d', c) = on_reply serde texts d session w reply in
      fed-tx serde texts d' later emitted (c ∷ [])

  feed_outcome-tx :
      (serde : Serde N) (texts : Texts N) (d : Duplex N) (session : Session N) (later : ℕ)
      (emitted : List (Output (Value N))) (outcome : Result AppError (Option (Reply N)))
      → (feed_outcome serde texts d session later emitted outcome).duplex.tx ≡ d.tx
  unfolding feed_outcome
  feed_outcome-tx serde texts d session later emitted (err why) = refl
  feed_outcome-tx serde texts d session later emitted (ok none) =
      fed-tx serde texts d later emitted []
  feed_outcome-tx serde texts d session later emitted (ok (some reply)) =
      feed_reply-tx serde texts d session later emitted reply d.pending

  feed_to-tx :
      (serde : Serde N) (texts : Texts N) (d : Duplex N) (o : Option (Session N)) (bytes : Bytes)
      (time later : ℕ)
      → (feed_to serde texts d o bytes time later).duplex.tx ≡ d.tx
  unfolding feed_to
  feed_to-tx serde texts d none bytes time later =
      fed-tx serde texts d later (Output.console bytes ∷ []) []
  feed_to-tx serde texts d (some session) bytes time later =
      let done = process serde session bytes (expected_at time d.pending) in
      feed_outcome-tx serde texts (record d { session = some done.session }) done.session later
        done.emitted done.outcome

  feed-tx :
      (serde : Serde N) (texts : Texts N) (d : Duplex N) (bytes : Bytes) (time later : ℕ)
      → (feed serde texts d bytes time later).duplex.tx ≡ d.tx
  unfolding feed
  feed-tx serde texts d bytes time later = feed_to-tx serde texts d d.session bytes time later

module _ {N : Type 0} (serde : Serde N) (texts : Texts N) where
  -- The states of the scheduler since a stream was opened, each with the bytes that the stream has taken,
  -- and with the inputs that were entered until then.
  -- A write takes at most the bytes that it is given. After an error of `tick` the stream is dropped.
  pub data Written : Duplex N → Bytes → List Bytes → Type 0 where
    opened : Written (new N) [] []
    requested :
        {d : Duplex N} {w : Bytes} {inputs : List Bytes} (key : Bytes)
        (command : Option (Command N)) (time timeout fresh : ℕ)
        → Written d w inputs
        → Written (start_application serde d key command time timeout fresh).0 w inputs
    entered :
        {d : Duplex N} {w : Bytes} {inputs : List Bytes} (key bytes : Bytes) (time timeout : ℕ)
        (result : Value N)
        → Written d w inputs
        → Written (start_input d key bytes time timeout result).0 w (bytes ∷ inputs)
    ticked :
        {d : Duplex N} {w : Bytes} {inputs : List Bytes} (clock : ℕ → ℕ) (time n : ℕ)
        (done : Ended N)
        → n ≤ length (offered d.tx)
        → (tick d clock time (wrote n)).1 ≡ ok done
        → Written d w inputs
        → Written (tick d clock time (wrote n)).0 (w ++ take n (offered d.tx)) inputs
    waited :
        {d : Duplex N} {w : Bytes} {inputs : List Bytes} (clock : ℕ → ℕ) (time : ℕ)
        → Written d w inputs
        → Written (tick d clock time passing).0 w inputs
    received :
        {d : Duplex N} {w : Bytes} {inputs : List Bytes} (bytes : Bytes) (time later : ℕ)
        → Written d w inputs
        → Written (feed serde texts d bytes time later).duplex w inputs

  -- The stream has taken whole units, and then the part of the frame in front that is written.
  abbrev pub IsWhole : List Bytes → List (Transfer N) → Bytes → Type 0
  IsWhole inputs tx w =
      IsOrderly inputs tx
      × ((finished : List Bytes) × All (IsUnit inputs) finished × (w ≡ join finished ++ partial tx))

  IsWhole-later :
      (text : Bytes) (inputs : List Bytes) (tx : List (Transfer N)) (w : Bytes)
      → IsWhole inputs tx w
      → IsWhole (text ∷ inputs) tx w
  IsWhole-later text inputs tx w (o, (finished, whole, e)) = (
    IsOrderly-later text inputs tx o,
    (finished, All-map _ _ (IsUnit-later text inputs) finished whole, e),
  )

  keep :
      (inputs : List Bytes) (tx tx' : List (Transfer N)) (w : Bytes)
      → IsWhole inputs tx w
      → (IsOrderly inputs tx → IsKept inputs tx tx')
      → IsWhole inputs tx' w
  keep inputs tx tx' w (o, (finished, whole, e)) k =
      let (o', same) = k o in
      (o', (finished, whole, e ∙ ap (λ (l : Bytes). join finished ++ l) (sym same)))

  step :
      (inputs : List Bytes) (tx tx' : List (Transfer N)) (w bytes : Bytes)
      → IsWhole inputs tx w
      → IsStep inputs tx bytes tx'
      → IsWhole inputs tx' (w ++ bytes)
  step inputs tx tx' w bytes (o, (finished, whole, e)) (o', (more, whole', e')) = (
    o',
    (
      finished ++ more,
      All-append (IsUnit inputs) finished more whole whole',
      ap (λ (l : Bytes). l ++ bytes) e
          ∙ append_assoc (join finished) (partial tx) bytes
          ∙ ap (λ (l : Bytes). join finished ++ l) e'
          ∙ sym (append_assoc (join finished) (join more) (partial tx'))
          ∙ ap (λ (l : Bytes). l ++ partial tx') (sym (join-append finished more)),
    ),
  )

  -- At every moment since a stream was opened, whatever was requested, entered, written and received, the
  -- bytes on the stream are whole units, and then the part of the frame in front that is written; a unit
  -- is a frame as `encode` makes it, or one of the chunks of at most 256 bytes of an input that was
  -- entered: nobody writes inside a frame or a chunk of another sender.
  pub written-IsWhole :
      (d : Duplex N) (w : Bytes) (inputs : List Bytes) → Written d w inputs → IsWhole inputs d.tx w
  unfolding IsOrderly partial
  written-IsWhole _ _ _ opened = (tt, ([], tt, unfold join in refl))
  written-IsWhole _ _ _ (requested {d} {w} {inputs} key command time timeout fresh r) =
      keep inputs d.tx _ w (written-IsWhole d w inputs r)
        (start_application-IsKept inputs serde d key command time timeout fresh)
  written-IsWhole _ _ _ (entered {d} {w} {inputs} key bytes time timeout result r) =
      keep (bytes ∷ inputs) d.tx _ w
        (IsWhole-later bytes inputs d.tx w (written-IsWhole d w inputs r))
        (start_input-IsKept (bytes ∷ inputs) d key bytes time timeout result (Memᴰ.head refl))
  written-IsWhole _ _ _ (ticked {d} {w} {inputs} clock time n done fits ran r) =
      let whole = written-IsWhole d w inputs r in
      step inputs d.tx _ w _ whole (tick-IsStep inputs d clock time n done whole.0 fits ran)
  written-IsWhole _ _ _ (waited {d} {w} {inputs} clock time r) =
      keep inputs d.tx _ w (written-IsWhole d w inputs r) (tick-passing inputs d clock time)
  written-IsWhole _ _ _ (received {d} {w} {inputs} bytes time later r) =
      rw (feed-tx serde texts d bytes time later) (written-IsWhole d w inputs r)
