-- ===== src/Server/Track.antt =====
-- crates/xrouter-server/src/track.rs: the tracker of requests, its buffer and its file of frames.
-- `encode` is `bincode` with `zstd`, `decode` the way back, `none` where they fail. The file is the
-- list of its bytes, and an append to it succeeds.
pub mod Codes
pub mod Log
pub mod Frames
mod Tests
use xrouter.Common.{
  ℕ, zero, suc, ◌+◌, ◌*◌, ◌/◌, ◌%◌, ◌^◌, Bool, true, false, not, Option, none, some, List, [], ◌∷◌,
  ◌++◌, Text, leb, ltb, if◌then◌else◌, length, take, drop, option_or,
}

pub record TrackEntry : Type 0 where
  pub error_code : ℕ
  pub timestamp : ℕ
  pub provider : Text
  pub model : Text
  pub tier : Text
  pub latency_ms : ℕ
  pub is_success : Bool

pub record Tracker : Type 0 where
  pub enabled : Bool
  pub buffer : List TrackEntry
  pub file : List ℕ

-- `Tracker::new`, on the file that is there.
abbrev pub new : Bool → List ℕ → Tracker
new enabled file = record { enabled = enabled; buffer = []; file = file }

-- `u32::to_le_bytes` and `u32::from_le_bytes`
unfoldable pub to_le_bytes : ℕ → List ℕ
to_le_bytes n = n % 256 ∷ n / 256 % 256 ∷ n / 65536 % 256 ∷ n / 16777216 % 256 ∷ []

unfoldable pub from_le_bytes : ℕ → ℕ → ℕ → ℕ → ℕ
from_le_bytes a b c d = a + 256 * b + 65536 * c + 16777216 * d

abbrev pub frame : List ℕ → List ℕ
frame c = to_le_bytes (length c % 2 ^ 32) ++ c

abbrev pub is_empty : List TrackEntry → Bool
is_empty [] = true
is_empty (e ∷ es) = false

module _ (encode : List TrackEntry → Option (List ℕ)) where
  unfoldable pub write_entries : Tracker → List TrackEntry → Tracker
  write_entries t es =
      if t.enabled
      then elim (encode es) [ none ↦ t | some c ↦ record t { file = t.file ++ frame c } ]
      else t

  -- `Tracker::record`
  unfoldable pub record_entry : Tracker → TrackEntry → Tracker
  unfolding write_entries
  record_entry t e =
      let buf = t.buffer ++ e ∷ [] in
      if not t.enabled
      then t
      else if leb 100 (length buf)
      then write_entries (record t { buffer = [] }) buf
      else record t { buffer = buf }

  unfoldable pub flush : Tracker → Tracker
  unfolding write_entries
  flush t =
      if not t.enabled
      then t
      else if is_empty t.buffer
      then t
      else write_entries (record t { buffer = [] }) t.buffer

module _ (decode : List ℕ → Option (List TrackEntry)) where
  -- The loop of `read_all`, over the bytes that are left. Each round takes four bytes or more, so the
  -- length of the file is fuel enough.
  unfoldable pub read_frames : ℕ → List ℕ → List TrackEntry
  unfolding from_le_bytes
  read_frames zero bytes = []
  read_frames (suc fuel) (a ∷ b ∷ c ∷ d ∷ rest) =
      let len = from_le_bytes a b c d in
      let more = read_frames fuel (drop len rest) in
      if ltb (length rest) len then [] else option_or (decode (take len rest)) [] ++ more
  read_frames (suc fuel) bytes = []

  unfoldable pub read_all : Tracker → List TrackEntry
  unfolding read_frames
  read_all t = (if t.enabled then read_frames (length t.file) t.file else []) ++ t.buffer
