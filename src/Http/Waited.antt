-- ===== src/Http/Waited.antt =====
-- What `wait` of src/server.rs finds, beside what `stream` sends in the same rounds.
use idf_remote.Base.{
  arith, ◌⊎◌, eq_bytes→eq, eq_bytes_refl, ok_injective, err-ne-ok, ◌↔◌, ◌≡◌, refl, sym, ap, ◌∙◌,
  Bool, true, false, ◌&&◌, Bool-cases, Option-cases, inl, inr, List, [], ◌∷◌, ◌++◌, Option, some,
  none, Bytes, All, if◌then◌else◌, Result, Result-cases, ok, err, >>-eq-ok,
}
use idf_remote.Base.Text.{codes}
use idf_remote.Store.Events.{Event, Cursor, events_after}
use idf_remote.Http.Reports.{
  Round, ReportError, shutting_down, wait_timeout, is_log, text_matches, find_match, wait_rounds,
  sent_batch, stream_rounds,
}
use idf_remote.Http.Unbroken.{sent_events, sent_events-append}

some-ne-none : {A : Type 0} (a : A) → some a ≡ none → ⊥
some-ne-none a e = cc

none-ne-some : {A : Type 0} (a : A) → none ≡ some a → ⊥
none-ne-some a e = cc

true-ne-false : true ≡ false → ⊥
true-ne-false e = cc

some_injective : {A : Type 0} {a b : A} → some a ≡ some b → a ≡ b
some_injective e = cc

-- A loop that has returned a value was not late.
not_late :
    {A : Type 0} {x : A} {rest : Result ReportError A} (late : Bool)
    → (if late then err wait_timeout else rest) ≡ ok x
    → rest ≡ ok x
not_late true e = absurd (err-ne-ok e)
not_late false e = e

module _ {Value : Type 0} where
  find_match-append :
      (text_of : Value → Option Bytes) (is_match : Bytes → Bool) (xs ys : List (Event Value))
      → find_match text_of is_match xs ≡ none
      → find_match text_of is_match (xs ++ ys) ≡ find_match text_of is_match ys
  unfolding find_match
  find_match-append text_of is_match [] ys e = refl
  find_match-append text_of is_match (x ∷ xs) ys e =
      elim (Bool-cases (is_log x && text_matches text_of is_match (text_of x.body))) [
        | inl here ↦ absurd (some-ne-none x (rw here at e))
        | inr not_here ↦ rw not_here (find_match-append text_of is_match xs ys (rw not_here at e))
      ]

  find_match-front :
      (text_of : Value → Option Bytes) (is_match : Bytes → Bool) (xs ys : List (Event Value))
      (x : Event Value)
      → find_match text_of is_match xs ≡ some x
      → find_match text_of is_match (xs ++ ys) ≡ some x
  unfolding find_match
  find_match-front text_of is_match [] ys x e = absurd (cc)
  find_match-front text_of is_match (y ∷ xs) ys x e =
      elim (Bool-cases (is_log y && text_matches text_of is_match (text_of y.body))) [
        | inl here ↦ rw here (rw here at e)
        | inr not_here ↦ rw not_here (find_match-front text_of is_match xs ys x (rw not_here at e))
      ]

  wait_rounds-find_match :
      (text_of : Value → Option Bytes) (is_match : Bytes → Bool) (epoch : Bytes) (c : Cursor)
      (rs : List (Round Value)) (x : Event Value)
      → wait_rounds text_of is_match epoch c rs ≡ ok x
      → find_match text_of is_match (sent_events (stream_rounds epoch c rs)) ≡ some x
  unfolding wait_rounds stream_rounds sent_batch
  wait_rounds-find_match text_of is_match epoch c [] x e = absurd (cc)
  wait_rounds-find_match text_of is_match epoch c (r ∷ rs) x e =
      let (up, e1) = >>-eq-ok r.is_running shutting_down _ e in
      elim (Result-cases (events_after epoch r.state c)) [
        | inr (why, f) ↦ absurd (err-ne-ok (rw f at e1))
        | inl (b, f) ↦
            let e2 = rw f at e1 in
            rw (up, f, sent_events-append b.events)
              (elim (Option-cases (find_match text_of is_match b.events)) [
                | inr (y, found) ↦
                    find_match-front text_of is_match b.events _ x
                      (found ∙ ap some (ok_injective (rw found at e2)))
                | inl nothing ↦
                    find_match-append text_of is_match b.events _ nothing
                    ∙ wait_rounds-find_match text_of is_match epoch b.cursor rs x
                        (not_late r.is_late (rw nothing at e2))
              ])
      ]

  -- A round before the deadline, with the daemon running.
  abbrev pub IsOnTime : Round Value → Type 0
  IsOnTime r = (r.is_running ≡ true) × (r.is_late ≡ false)

  find_match-wait_rounds :
      (text_of : Value → Option Bytes) (is_match : Bytes → Bool) (epoch : Bytes) (c : Cursor)
      (rs : List (Round Value)) (x : Event Value)
      → All IsOnTime rs
      → find_match text_of is_match (sent_events (stream_rounds epoch c rs)) ≡ some x
      → wait_rounds text_of is_match epoch c rs ≡ ok x
  unfolding wait_rounds stream_rounds sent_batch sent_events find_match
  find_match-wait_rounds text_of is_match epoch c [] x k e = absurd (cc)
  find_match-wait_rounds text_of is_match epoch c (r ∷ rs) x ((up, early), ks) e =
      elim (Result-cases (events_after epoch r.state c)) [
        | inr (why, f) ↦ absurd (none-ne-some x (rw (up, f) at e))
        | inl (b, f) ↦
            let e1 = rw (up, f, sent_events-append b.events) at e in
            rw (up, f)
              (elim (Option-cases (find_match text_of is_match b.events)) [
                | inr (y, found) ↦ rw found (
                    ap ok (
                      some_injective
                        (sym (find_match-front text_of is_match b.events _ y found) ∙ e1)))
                | inl nothing ↦
                    rw (nothing, early)
                      (find_match-wait_rounds text_of is_match epoch b.cursor rs x ks
                        (sym (find_match-append text_of is_match b.events _ nothing) ∙ e1))
              ])
      ]

  module _ (text_of : Value → Option Bytes) (is_match : Bytes → Bool) where
    -- An event of the log whose text the pattern matches.
    abbrev pub IsMatch : Event Value → Type 0
    IsMatch e =
        (e.kind ≡ codes "log")
        × ((text : Bytes) × (text_of e.body ≡ some text) × (is_match text ≡ true))

    -- The first event that matches.
    abbrev pub IsFirst : List (Event Value) → Event Value → Type 0
    IsFirst [] x = ⊥
    IsFirst (e ∷ es) x = (IsMatch e × (e ≡ x)) ⊎ ((¬ IsMatch e) × IsFirst es x)

    abbrev is_found : Event Value → Bool
    is_found e = is_log e && text_matches text_of is_match (text_of e.body)

    is_found-IsMatch : (e : Event Value) → is_found e ≡ true → IsMatch e
    is_found-IsMatch e h = elim (Option-cases (text_of e.body)) [
      | inl nothing ↦ absurd (ground arith)
      | inr (text, f) ↦
          let both : (is_log e && is_match text) ≡ true = rw f at h in
          (eq_bytes→eq e.kind (codes "log") (ground arith), (text, f, ground arith))
    ]

    IsMatch-is_found : (e : Event Value) → IsMatch e → is_found e ≡ true
    IsMatch-is_found e (k, (text, f, m)) = rw (k, f, m, eq_bytes_refl (codes "log")) refl

    find_match-IsFirst :
        (es : List (Event Value)) (x : Event Value)
        → find_match text_of is_match es ≡ some x
        → IsFirst es x
    unfolding find_match
    find_match-IsFirst [] x h = absurd (none-ne-some x h)
    find_match-IsFirst (e ∷ es) x h = elim (Bool-cases (is_found e)) [
      | inl here ↦ inl (is_found-IsMatch e here, some_injective (rw here at h))
      | inr not_here ↦ inr (
        (λ m. true-ne-false (sym (IsMatch-is_found e m) ∙ not_here)),
        find_match-IsFirst es x (rw not_here at h),
      )
    ]

    IsFirst-find_match :
        (es : List (Event Value)) (x : Event Value)
        → IsFirst es x
        → find_match text_of is_match es ≡ some x
    unfolding find_match
    IsFirst-find_match [] x h = absurd h
    IsFirst-find_match (e ∷ es) x (inl (m, same)) = rw (IsMatch-is_found e m, same) refl
    IsFirst-find_match (e ∷ es) x (inr (differs, later)) = elim (Bool-cases (is_found e)) [
      | inl here ↦ absurd (differs (is_found-IsMatch e here))
      | inr not_here ↦ rw not_here (IsFirst-find_match es x later)
    ]

  -- In rounds that come before the deadline, with the daemon running, `wait` returns an event exactly when
  -- among all that a subscriber is sent from the same cursor on in the same rounds it is the first of the
  -- kind "log" that has a text which the pattern matches.
  pub wait_rounds-stream_rounds_iff :
      (text_of : Value → Option Bytes) (is_match : Bytes → Bool) (epoch : Bytes) (c : Cursor)
      (rs : List (Round Value)) (x : Event Value)
      → All IsOnTime rs
      → (wait_rounds text_of is_match epoch c rs ≡ ok x)
        ↔ IsFirst text_of is_match (sent_events (stream_rounds epoch c rs)) x
  wait_rounds-stream_rounds_iff text_of is_match epoch c rs x k =
      let sent = sent_events (stream_rounds epoch c rs) in
      (
        λ h.
            find_match-IsFirst text_of is_match sent x
              (wait_rounds-find_match text_of is_match epoch c rs x h),
        λ h.
            find_match-wait_rounds text_of is_match epoch c rs x k
              (IsFirst-find_match text_of is_match sent x h),
      )
