-- ===== src/Duplex/Once.antt =====
-- Calls of src/duplex.rs in any order, and how often each operation ends.
use idf_remote.Base.{ℕ, ◌+◌, ◌≡◌, refl, arith, List, [], ◌∷◌, ◌++◌, Option, Bytes, Result, err, ok}
use idf_remote.Store.Completion.{Lane, application, input}
use idf_remote.Application.Json.{Value, Serde, Command}
use idf_remote.Duplex.State.{Duplex, DuplexError, start_application, start_input, new}
use idf_remote.Duplex.Steps.{Write, Texts, Ended, tick, feed, abort}
use idf_remote.Duplex.Accounts.{
  bit, Choice, count_tx, count_open, count_done, count_done-append, count_outcome, tick-count,
  abort-count,
}
use idf_remote.Duplex.Calls.{count_taken, feed-count, start_application-count, start_input-count}

-- A call of the worker, with what the call reads of the clock and of the stream.
pub data Call (N : Type 0) : Type 0 where
  for_application : Bytes → Option (Command N) → (time timeout fresh : ℕ) → Call N
  for_input : Bytes → Bytes → (time timeout : ℕ) → Value N → Call N
  for_tick : (ℕ → ℕ) → ℕ → Write → Call N
  for_feed : Bytes → (time later : ℕ) → Call N
  for_abort : Bytes → Call N

-- What calls have done: the state, the keys that were taken on and the completions.
pub record Run (N : Type 0) : Type 0 where
  pub duplex : Duplex N
  pub taken : List (Bytes × Lane)
  pub ended : Ended N

abbrev pub idle : (N : Type 0) → Run N
idle N = record { duplex = new N; taken = []; ended = [] }

abbrev pub done_of : {N : Type 0} → Result DuplexError (Ended N) → Ended N
done_of (err why) = []
done_of (ok done) = done

abbrev pub taken_of : Bytes → Lane → Result DuplexError (Unit {0}) → List (Bytes × Lane)
taken_of key lane (err why) = []
taken_of key lane (ok tt) = (key, lane) ∷ []

module _ {N : Type 0} (serde : Serde N) (texts : Texts N) where
  unfoldable pub call : Run N → Call N → Run N
  call r (for_application key command time timeout fresh) =
      let (d, result) = start_application serde r.duplex key command time timeout fresh in
      record { duplex = d; taken = taken_of key application result ++ r.taken; ended = r.ended }
  call r (for_input key bytes time timeout value) =
      let (d, result) = start_input r.duplex key bytes time timeout value in
      record { duplex = d; taken = taken_of key input result ++ r.taken; ended = r.ended }
  call r (for_tick clock time outcome) =
      let (d, result) = tick r.duplex clock time outcome in
      record r { duplex = d; ended = done_of result ++ r.ended }
  call r (for_feed bytes time later) =
      let done = feed serde texts r.duplex bytes time later in
      record r { duplex = done.duplex; ended = done_of done.outcome ++ r.ended }
  call r (for_abort reason) =
      let (d, done) = abort r.duplex reason in record r { duplex = d; ended = done ++ r.ended }

  unfoldable pub calls : Run N → List (Call N) → Run N
  calls r [] = r
  calls r (c ∷ cs) = calls (call r c) cs

unfoldable pub count_keys : Choice → List (Bytes × Lane) → ℕ
count_keys p [] = 0
count_keys p ((key, lane) ∷ keys) = bit (p key lane) + count_keys p keys

count_keys-append :
    (p : Choice) (xs ys : List (Bytes × Lane))
    → count_keys p (xs ++ ys) ≡ count_keys p xs + count_keys p ys
unfolding count_keys
count_keys-append p [] ys = omega arith
count_keys-append p ((key, lane) ∷ xs) ys = omega (arith, count_keys-append p xs ys)

taken_of-count :
    (p : Choice) (key : Bytes) (lane : Lane) (result : Result DuplexError (Unit {0}))
    → count_keys p (taken_of key lane result) ≡ count_taken p key lane result
unfolding count_keys
taken_of-count p key lane (err why) = refl
taken_of-count p key lane (ok tt) = omega arith

module _ {N : Type 0} (p : Choice) (serde : Serde N) (texts : Texts N) where
  done_of-count :
      (result : Result DuplexError (Ended N))
      → count_done p (done_of result) ≡ count_outcome p result
  unfolding count_done
  done_of-count (err why) = refl
  done_of-count (ok done) = refl

  -- Nothing is lost and nothing is ended twice.
  abbrev pub IsBalanced : Run N → Type 0
  IsBalanced r = count_keys p r.taken ≡ count_done p r.ended + count_open p r.duplex

  pub count_open-abort : (d : Duplex N) (reason : Bytes) → count_open p (abort d reason).0 ≡ 0
  unfolding abort count_open count_tx
  count_open-abort d reason = omega arith

  idle-IsBalanced : IsBalanced (idle N)
  unfolding count_keys count_done count_open count_tx
  idle-IsBalanced = omega arith

  call-IsBalanced : (r : Run N) (c : Call N) → IsBalanced r → IsBalanced (call serde texts r c)
  unfolding call
  call-IsBalanced r (for_application key command time timeout fresh) h =
      let result = (start_application serde r.duplex key command time timeout fresh).1 in
      omega (
        arith,
        h,
        count_keys-append p (taken_of key application result) r.taken,
        taken_of-count p key application result,
        start_application-count p serde r.duplex key command time timeout fresh,
      )
  call-IsBalanced r (for_input key bytes time timeout value) h =
      let result = (start_input r.duplex key bytes time timeout value).1 in
      omega (
        arith,
        h,
        count_keys-append p (taken_of key input result) r.taken,
        taken_of-count p key input result,
        start_input-count p r.duplex key bytes time timeout value,
      )
  call-IsBalanced r (for_tick clock time outcome) h =
      let result = (tick r.duplex clock time outcome).1 in
      omega (
        arith,
        h,
        count_done-append p (done_of result) r.ended,
        done_of-count result,
        tick-count p r.duplex clock time outcome,
      )
  call-IsBalanced r (for_feed bytes time later) h =
      let result = (feed serde texts r.duplex bytes time later).outcome in
      omega (
        arith,
        h,
        count_done-append p (done_of result) r.ended,
        done_of-count result,
        feed-count p serde texts r.duplex bytes time later,
      )
  call-IsBalanced r (for_abort reason) h =
      let done = (abort r.duplex reason).1 in
      omega (
        arith,
        h,
        count_done-append p done r.ended,
        abort-count p r.duplex reason,
        count_open-abort r.duplex reason,
      )

  pub calls-IsBalanced :
      (r : Run N) (cs : List (Call N)) → IsBalanced r → IsBalanced (calls serde texts r cs)
  unfolding calls
  calls-IsBalanced r [] h = h
  calls-IsBalanced r (c ∷ cs) h = calls-IsBalanced (call serde texts r c) cs (call-IsBalanced r c h)

-- Whatever calls the worker makes of the scheduler, in any order and with any outcome of writes, reads and
-- clocks, and then aborts it: for each choice of keys and lanes, the completions of the choice are as many
-- as the requests and inputs of it that were taken on. So each is ended exactly once, with its lane.
pub calls-abort :
    {N : Type 0} (serde : Serde N) (texts : Texts N) (p : Choice) (cs : List (Call N))
    (reason : Bytes)
    → count_done p (call serde texts (calls serde texts (idle N) cs) (for_abort reason)).ended
      ≡ count_keys p (calls serde texts (idle N) cs).taken
unfolding call
calls-abort {N = N} serde texts p cs reason =
    let r = calls serde texts (idle N) cs in
    omega (
      arith,
      calls-IsBalanced p serde texts (idle N) cs (idle-IsBalanced p serde texts),
      count_done-append p (abort r.duplex reason).1 r.ended,
      abort-count p r.duplex reason,
    )
