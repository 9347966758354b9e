-- ===== src/Server/Track/Frames.antt =====
-- crates/xrouter-server/src/track.rs: the frames of the file that `Tracker::read_all` reads.
use xrouter.Common.{
  ℕ, zero, suc, ◌<◌, ◌≤◌, ◌≡◌, refl, ◌++◌, true, Option, none, some, List, [], ◌∷◌, length, drop,
  take, ltb, ltb→lt, arith, Bool-cases, Option-cases, inl, inr,
}
use xrouter.Server.Track.{TrackEntry, Tracker, read_frames, from_le_bytes, read_all}

length-drop-le : (n : ℕ) (bytes : List ℕ) → length (drop n bytes) ≤ length bytes
length-drop-le zero bytes = omega arith
length-drop-le (suc n) [] = omega arith
length-drop-le (suc n) (b ∷ bytes) = omega (arith, length-drop-le n bytes)

-- The entries that a file of frames holds, without fuel: a frame is a length in four bytes and that
-- many bytes, and the file ends where no whole frame is left. The entries of a frame that cannot be
-- decoded are lost, and those of the frames behind it are not.
pub data HasFrames (decode : List ℕ → Option (List TrackEntry))
    : List ℕ → List TrackEntry → Type 0 where
  cut_head : (bytes : List ℕ) → length bytes < 4 → HasFrames decode bytes []
  cut_body :
      (a b c d : ℕ) (rest : List ℕ)
      → length rest < from_le_bytes a b c d
      → HasFrames decode (a ∷ b ∷ c ∷ d ∷ rest) []
  decoded :
      (a b c d : ℕ) (rest : List ℕ) (es more : List TrackEntry)
      → from_le_bytes a b c d ≤ length rest
      → decode (take (from_le_bytes a b c d) rest) ≡ some es
      → HasFrames decode (drop (from_le_bytes a b c d) rest) more
      → HasFrames decode (a ∷ b ∷ c ∷ d ∷ rest) (es ++ more)
  undecoded :
      (a b c d : ℕ) (rest : List ℕ) (more : List TrackEntry)
      → from_le_bytes a b c d ≤ length rest
      → decode (take (from_le_bytes a b c d) rest) ≡ none
      → HasFrames decode (drop (from_le_bytes a b c d) rest) more
      → HasFrames decode (a ∷ b ∷ c ∷ d ∷ rest) more

module _ (decode : List ℕ → Option (List TrackEntry)) where
  -- With fuel for each byte the loop reads what the file holds.
  read_frames-HasFrames :
      (n : ℕ) (bytes : List ℕ)
      → length bytes ≤ n
      → HasFrames decode bytes (read_frames decode n bytes)
  unfolding read_frames
  read_frames-HasFrames zero [] h = cut_head [] (omega arith)
  read_frames-HasFrames zero (b ∷ bytes) h = elim h [ ]
  read_frames-HasFrames (suc n) [] h = cut_head _ (omega arith)
  read_frames-HasFrames (suc n) (a ∷ []) h = cut_head _ (omega arith)
  read_frames-HasFrames (suc n) (a ∷ b ∷ []) h = cut_head _ (omega arith)
  read_frames-HasFrames (suc n) (a ∷ b ∷ c ∷ []) h = cut_head _ (omega arith)
  read_frames-HasFrames (suc n) (a ∷ b ∷ c ∷ d ∷ rest) h =
      let len = from_le_bytes a b c d in
      let more = read_frames-HasFrames n (drop len rest) (omega (arith, length-drop-le len rest)) in
      elim (Bool-cases (ltb (length rest) len)) [
        | inl s ↦ rw s (cut_body a b c d rest (ltb→lt (length rest) len s))
        | inr s ↦ elim (Option-cases (decode (take len rest))) [
          | inl e ↦ rw (s, e) (undecoded a b c d rest _ (ground (arith, s)) e more)
          | inr (es, e) ↦ rw (s, e) (decoded a b c d rest es _ (ground (arith, s)) e more)
        ]
      ]

  -- `read_all` of a tracker that is on gives the entries of all frames of the file, of those behind a
  -- frame that cannot be decoded too, and then the buffer.
  pub read_all-HasFrames :
      (t : Tracker)
      → t.enabled ≡ true
      → (es : List TrackEntry) × HasFrames decode t.file es × (read_all decode t ≡ es ++ t.buffer)
  unfolding read_all
  read_all-HasFrames t on = (
    read_frames decode (length t.file) t.file,
    read_frames-HasFrames (length t.file) t.file (omega arith),
    rw on refl,
  )
