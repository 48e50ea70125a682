-- ===== src/Logs.antt =====
-- src/logs.rs: `LineDecoder`, which cuts console output into records. The regular expressions and the
-- decoding of UTF-8 are those of the regex crate and the standard library, parameters here.
use idf_remote.Base.{
  ℕ, ◌+◌, ◌*◌, ◌-◌, ◌^◌, Bool, true, false, ◌&&◌, List, [], ◌∷◌, ◌++◌, Option, some, none, Bytes,
  length, is_empty, ltb, leb, ◌==◌, if◌then◌else◌,
}
pub mod Lines
pub mod Capture
pub mod Whole

abbrev pub max_line_bytes : ℕ
max_line_bytes = 16 * 1024

pub record LogRecord : Type 0 where
  pub seq : ℕ
  pub host_time_ms : ℕ
  pub text : Bytes
  pub fragment : Bool
  pub level : Option Bytes
  pub tag : Option Bytes
  pub esp_time_ms : Option ℕ

pub record LineDecoder : Type 0 where
  pub pending : Bytes
  pub seq : ℕ

-- The groups of the expression `ESP_LOG`.
pub record Captures : Type 0 where
  pub level : Bytes
  pub digits : Bytes
  pub tag : Bytes

-- `clean_text`, the captures of a text, and the time at which the record with a number is made.
pub record Console : Type 0 where
  pub clean_text : Bytes → Bytes
  pub captures : Bytes → Option Captures
  pub clock : ℕ → ℕ

-- `c[2].parse::<u64>()` on the digits that `\d+` matched.
unfoldable pub parse_u64 : ℕ → Bytes → Option ℕ
parse_u64 value [] = some value
parse_u64 value (c ∷ cs) =
    let rest = parse_u64 (value * 10 + (c - b'0')) cs in
    if leb b'0' c && leb c b'9' && ltb (value * 10 + (c - b'0')) (2 ^ 64) then rest else none

abbrev pub level_of : Option Captures → Option Bytes
level_of none = none
level_of (some c) = some c.level

abbrev pub tag_of : Option Captures → Option Bytes
tag_of none = none
tag_of (some c) = some c.tag

abbrev pub time_of : Option Captures → Option ℕ
time_of none = none
time_of (some c) = parse_u64 0 c.digits

module _ (con : Console) where
  -- The record that `finish` makes of a line.
  unfoldable pub record_of : ℕ → Bytes → Bool → LogRecord
  record_of seq line fragment =
      let text = con.clean_text line in
      let captures = con.captures text in
      record {
        seq = seq;
        host_time_ms = con.clock seq;
        text = text;
        fragment = fragment;
        level = level_of captures;
        tag = tag_of captures;
        esp_time_ms = time_of captures;
      }

  unfoldable pub finish : LineDecoder → Bool → LineDecoder × LogRecord
  finish d fragment =
      (record { pending = []; seq = d.seq + 1 }, record_of (d.seq + 1) d.pending fragment)

  -- One round of the loop of `feed`.
  unfoldable pub feed_byte : LineDecoder → ℕ → LineDecoder × List LogRecord
  feed_byte d b =
      let pushed : LineDecoder = record d { pending = d.pending ++ b ∷ [] } in
      let line = finish d false in
      let cut = finish pushed true in
      if b == 10
      then (line.0, line.1 ∷ [])
      else if length pushed.pending == max_line_bytes
      then (cut.0, cut.1 ∷ [])
      else (pushed, [])

  unfoldable pub feed : LineDecoder → Bytes → LineDecoder × List LogRecord
  feed d [] = (d, [])
  feed d (b ∷ bs) = let one = feed_byte d b in let rest = feed one.0 bs in (rest.0, one.1 ++ rest.1)

  unfoldable pub finish_pending : LineDecoder → LineDecoder × Option LogRecord
  finish_pending d =
      let last = finish d true in if is_empty d.pending then (d, none) else (last.0, some last.1)
