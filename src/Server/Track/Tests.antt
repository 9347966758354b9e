-- ===== src/Server/Track/Tests.antt =====
-- Runs of the tracker, and its theorems at concrete inputs.
use xrouter.Common.{
  ℕ, zero, suc, ◌≡◌, refl, sym, ap, ◌∙◌, true, Option, none, some, List, [], ◌∷◌, ◌++◌, codes,
  length, All, arith,
}
use xrouter.Server.Track.{
  TrackEntry, Tracker, frame, new, to_le_bytes, write_entries, record_entry, flush, read_all,
}
use xrouter.Server.Track.Log.{Call, records, flushes, recorded, run, IsCodec, run-read_all}
use xrouter.Server.Track.Frames.{read_all-HasFrames, HasFrames}

abbrev entry : TrackEntry
entry = record {
  error_code = 200;
  timestamp = 7;
  provider = codes "zen";
  model = codes "mimo";
  tier = codes "fast";
  latency_ms = 12;
  is_success = true;
}

-- A codec for lists of this one entry: their length.
abbrev encode : List TrackEntry → Option (List ℕ)
encode es = some (length es ∷ [])

abbrev copies : ℕ → List TrackEntry
copies zero = []
copies (suc n) = entry ∷ copies n

abbrev decode : List ℕ → Option (List TrackEntry)
decode (n ∷ []) = some (copies n)
decode c = none

abbrev IsEntry : TrackEntry → Type 0
IsEntry e = e ≡ entry

copies-length : (es : List TrackEntry) → All IsEntry es → copies (length es) ≡ es
copies-length [] h = refl
copies-length (e ∷ es) h =
    ap (λ (x : TrackEntry). x ∷ copies (length es)) (sym h.0)
    ∙ ap (λ (x : List TrackEntry). e ∷ x) (copies-length es h.1)

codec : IsCodec IsEntry encode decode
codec es h room = (length es ∷ [], refl, ap some (copies-length es h), omega arith)

abbrev calls : List Call
calls = records entry ∷ flushes ∷ records entry ∷ records entry ∷ flushes ∷ records entry ∷ []

two_frames : (run encode (new true []) calls).file ≡ 1 ∷ 0 ∷ 0 ∷ 0 ∷ 1 ∷ 1 ∷ 0 ∷ 0 ∷ 0 ∷ 2 ∷ []
unfolding write_entries record_entry flush to_le_bytes
two_frames = refl

run-read_all_example : read_all decode (run encode (new true []) calls) ≡ recorded calls
run-read_all_example =
    run-read_all IsEntry encode decode calls codec (refl, (refl, (refl, (refl, tt))))

abbrev full_tracker : Tracker
full_tracker = record { enabled = true; buffer = entry ∷ []; file = frame (2 ∷ []) }

read_all-HasFrames_example :
    (es : List TrackEntry) × HasFrames decode full_tracker.file es
    × (read_all decode full_tracker ≡ es ++ full_tracker.buffer)
read_all-HasFrames_example = read_all-HasFrames decode full_tracker refl
