-- ===== src/Server/Track/Log.antt =====
-- crates/xrouter-server/src/track.rs: recording, flushing and reading back.
use xrouter.Common.{
  ℕ, zero, suc, ◌/◌, ◌%◌, ◌^◌, ◌≤◌, ◌<◌, ◌≡◌, refl, sym, ap, ◌∙◌, subst, Bool, true, false, not,
  Option, none, some, List, [], ◌∷◌, ◌++◌, leb, ltb, if◌then◌else◌, length, take, drop, option_or,
  arith, All, All-append, append_assoc, append-nil, length-append,
}
use xrouter.Server.Track.{
  TrackEntry, Tracker, new, to_le_bytes, from_le_bytes, frame, write_entries, record_entry,
  is_empty, flush, read_frames, read_all,
}

from_le_bytes-to_le_bytes :
    (n : ℕ)
    → n < 2 ^ 32
    → from_le_bytes (n % 256) (n / 256 % 256) (n / 65536 % 256) (n / 16777216 % 256) ≡ n
unfolding from_le_bytes
from_le_bytes-to_le_bytes n h = omega arith

take-append : (xs ys : List ℕ) → take (length xs) (xs ++ ys) ≡ xs
take-append [] ys = refl
take-append (x ∷ xs) ys = rw (take-append xs ys) refl

drop-append : (xs ys : List ℕ) → drop (length xs) (xs ++ ys) ≡ ys
drop-append [] ys = refl
drop-append (x ∷ xs) ys = drop-append xs ys

-- A frame that is all there is decoded.
not_short {ℓ} :
    {A : Type ℓ} (len size : ℕ) (x y : A) → len ≤ size → (if ltb size len then x else y) ≡ y
not_short len size x y h = ground arith

-- The entries of some blocks.
abbrev pub flat : List (List TrackEntry) → List TrackEntry
flat [] = []
flat (b ∷ bs) = b ++ flat bs

flat-snoc : (bs : List (List TrackEntry)) (b : List TrackEntry) → flat (bs ++ b ∷ []) ≡ flat bs ++ b
flat-snoc [] b = append-nil b
flat-snoc (a ∷ bs) b = ap (λ x. a ++ x) (flat-snoc bs b) ∙ sym (append_assoc a (flat bs) b)

if_false :
    (Q : Tracker → Type 0) (b : Bool) (x y : Tracker) → b ≡ false → Q y → Q (if b then x else y)
if_false Q b x y e h = subst (λ (c : Bool). Q (if c then x else y)) (sym e) h

if_either :
    (Q : Tracker → Type 0) (b : Bool) (x y : Tracker)
    → (b ≡ true → Q x)
    → (b ≡ false → Q y)
    → Q (if b then x else y)
if_either Q true x y h k = h refl
if_either Q false x y h k = k refl

pub data Call : Type 0 where
  records : TrackEntry → Call
  flushes : Call

abbrev pub recorded : List Call → List TrackEntry
recorded [] = []
recorded (records e ∷ cs) = e ∷ recorded cs
recorded (flushes ∷ cs) = recorded cs

-- The calls, one after the other; the loop of flushes is among them.
abbrev pub run : (List TrackEntry → Option (List ℕ)) → Tracker → List Call → Tracker
run encode t [] = t
run encode t (records e ∷ cs) = run encode (record_entry encode t e) cs
run encode t (flushes ∷ cs) = run encode (flush encode t) cs

module _ (P : TrackEntry → Type 0) (encode : List TrackEntry → Option (List ℕ))
    (decode : List ℕ → Option (List TrackEntry)) where
  -- A block of at most 100 entries of the kind is read back, and is shorter than 2 ^ 32 bytes.
  abbrev pub IsCodec : Type 0
  IsCodec =
      (es : List TrackEntry)
      → All P es
      → length es ≤ 100
      → (c : List ℕ) × (encode es ≡ some c) × (decode c ≡ some es) × (length c < 2 ^ 32)

  -- A frame at the front of a file is read.
  read_frames-frame :
      (fuel : ℕ) (c rest : List ℕ) (es : List TrackEntry)
      → decode c ≡ some es
      → length c < 2 ^ 32
      → read_frames decode (suc fuel) (frame c ++ rest) ≡ es ++ read_frames decode fuel rest
  unfolding read_frames to_le_bytes
  read_frames-frame fuel c rest es d h =
      let n = length c % 2 ^ 32 in
      let same : n ≡ length c = omega (arith, h) in
      let read = from_le_bytes-to_le_bytes n (omega (arith, h, same)) ∙ same in
      ap
        (λ (len : ℕ).
          if ltb (length (c ++ rest)) len
          then []
          else option_or (decode (take len (c ++ rest))) []
            ++ read_frames decode fuel (drop len (c ++ rest)))
        read
      ∙ not_short (length c) (length (c ++ rest)) _ _ (omega (arith, length-append c rest))
      ∙ ap
          (λ (x : List ℕ).
            option_or (decode x) [] ++ read_frames decode fuel (drop (length c) (c ++ rest)))
          (take-append c rest)
      ∙ ap (λ (x : List ℕ). option_or (decode c) [] ++ read_frames decode fuel x)
          (drop-append c rest)
      ∙ ap (λ (x : Option (List TrackEntry)). option_or x [] ++ read_frames decode fuel rest) d

  -- The file of some blocks of entries.
  unfoldable frames_of : List (List TrackEntry) → List ℕ
  frames_of [] = []
  frames_of (b ∷ bs) = frame (option_or (encode b) []) ++ frames_of bs

  abbrev IsBlock : List TrackEntry → Type 0
  IsBlock b = All P b × (length b ≤ 100)

  frames_of-snoc :
      (bs : List (List TrackEntry)) (b : List TrackEntry)
      → frames_of (bs ++ b ∷ []) ≡ frames_of bs ++ frame (option_or (encode b) [])
  unfolding frames_of
  frames_of-snoc [] b = append-nil (frame (option_or (encode b) []))
  frames_of-snoc (a ∷ bs) b =
      ap (λ (x : List ℕ). frame (option_or (encode a) []) ++ x) (frames_of-snoc bs b)
      ∙ sym (
          append_assoc (frame (option_or (encode a) [])) (frames_of bs)
            (frame (option_or (encode b) [])))

  module _ (codec : IsCodec) where
    read_frames-frames_of :
        (fuel : ℕ) (bs : List (List TrackEntry))
        → All IsBlock bs
        → length (frames_of bs) ≤ fuel
        → read_frames decode fuel (frames_of bs) ≡ flat bs
    unfolding frames_of read_frames to_le_bytes
    read_frames-frames_of zero [] v h = refl
    read_frames-frames_of (suc fuel) [] v h = refl
    read_frames-frames_of zero (b ∷ bs) v h = elim h [ ]
    read_frames-frames_of (suc fuel) (b ∷ bs) v h =
        let (c, e, d, short) = codec b v.0.0 v.0.1 in
        ap
          (λ (x : Option (List ℕ)).
            read_frames decode (suc fuel) (frame (option_or x []) ++ frames_of bs))
          e
        ∙ read_frames-frame fuel c (frames_of bs) b d short
        ∙ ap (λ (x : List TrackEntry). b ++ x)
            (read_frames-frames_of fuel bs v.1
              (omega (arith, h, length-append (option_or (encode b) []) (frames_of bs))))

    -- A tracker that has the entries, in whole frames and a buffer that is not full.
    record IsHeld (t : Tracker) (es : List TrackEntry) : Type 0 where
      blocks : List (List TrackEntry)
      whole : All IsBlock blocks
      in_file : t.file ≡ frames_of blocks
      in_all : flat blocks ++ t.buffer ≡ es
      kind : All P t.buffer
      room : length t.buffer < 100
      on : t.enabled ≡ true

    -- The buffer, written as one block.
    write_entries-IsHeld :
        (t : Tracker) (b es : List TrackEntry) (bs : List (List TrackEntry))
        → t.enabled ≡ true
        → t.buffer ≡ []
        → IsBlock b
        → All IsBlock bs
        → t.file ≡ frames_of bs
        → flat bs ++ b ≡ es
        → IsHeld (write_entries encode t b) es
    unfolding write_entries
    write_entries-IsHeld t b es bs on empty v vs file all =
        let (c, e, d, short) = codec b v.0 v.1 in
        subst (λ (x : Tracker). IsHeld x es)
          (sym (
            ap
              (λ (on : Bool).
                if on
                then elim (encode b) [ none ↦ t | some c ↦ record t { file = t.file ++ frame c } ]
                else t)
              on
            ∙ ap
                (λ (x : Option (List ℕ)). elim x [
                  | none ↦ t
                  | some c ↦ record t { file = t.file ++ frame c }
                ])
                e))
          (record {
            blocks = bs ++ b ∷ [];
            whole = All-append IsBlock bs (b ∷ []) vs (v, tt);
            in_file =
                ap (λ (x : List ℕ). x ++ frame c) file
                ∙ sym (
                    frames_of-snoc bs b
                    ∙ ap (λ (x : Option (List ℕ)). frames_of bs ++ frame (option_or x [])) e);
            in_all =
                ap (λ (x : List TrackEntry). flat (bs ++ b ∷ []) ++ x) empty
                ∙ append-nil (flat (bs ++ b ∷ []))
                ∙ flat-snoc bs b
                ∙ all;
            kind = subst (All P) (sym empty) tt;
            room = subst (λ (x : List TrackEntry). length x < 100) (sym empty) (omega arith);
            on = on;
          })

    record_entry-IsHeld :
        (t : Tracker) (es : List TrackEntry) (e : TrackEntry)
        → P e
        → IsHeld t es
        → IsHeld (record_entry encode t e) (es ++ e ∷ [])
    unfolding record_entry
    record_entry-IsHeld t es e p v =
        let buf = t.buffer ++ e ∷ [] in
        let all : flat v.blocks ++ buf ≡ es ++ e ∷ [] =
          sym (append_assoc (flat v.blocks) t.buffer (e ∷ [])) ∙ ap (λ x. x ++ e ∷ []) v.in_all in
        let kinds = All-append P t.buffer (e ∷ []) v.kind (p, tt) in
        if_false (λ x. IsHeld x (es ++ e ∷ [])) (not t.enabled) _ _ (ap not v.on)
          (if_either (λ x. IsHeld x (es ++ e ∷ [])) (leb 100 (length buf)) _ _
            (λ f.
              write_entries-IsHeld (record t { buffer = [] }) buf (es ++ e ∷ []) v.blocks v.on refl
                (kinds, omega (arith, v.room, length-append t.buffer (e ∷ []))) v.whole v.in_file
                all)
            (λ f. record {
              blocks = v.blocks;
              whole = v.whole;
              in_file = v.in_file;
              in_all = all;
              kind = kinds;
              room = ground (arith, f);
              on = v.on;
            }))

    flush-IsHeld : (t : Tracker) (es : List TrackEntry) → IsHeld t es → IsHeld (flush encode t) es
    unfolding flush
    flush-IsHeld t es v =
        if_false (λ x. IsHeld x es) (not t.enabled) _ _ (ap not v.on)
          (if_either (λ x. IsHeld x es) (is_empty t.buffer) _ _ (λ f. v)
            (λ f.
              write_entries-IsHeld (record t { buffer = [] }) t.buffer es v.blocks v.on refl
                (v.kind, omega (arith, v.room)) v.whole v.in_file v.in_all))

    read_all-IsHeld : (t : Tracker) (es : List TrackEntry) → IsHeld t es → read_all decode t ≡ es
    unfolding read_all
    read_all-IsHeld t es v =
        ap
          (λ (on : Bool).
            (if on then read_frames decode (length t.file) t.file else []) ++ t.buffer)
          v.on
        ∙ ap (λ (f : List ℕ). read_frames decode (length f) f ++ t.buffer) v.in_file
        ∙ ap (λ (x : List TrackEntry). x ++ t.buffer)
            (read_frames-frames_of (length (frames_of v.blocks)) v.blocks v.whole (omega arith))
        ∙ v.in_all

    start : IsHeld (new true []) []
    unfolding frames_of
    start = record {
      blocks = [];
      whole = tt;
      in_file = refl;
      in_all = refl;
      kind = tt;
      room = omega arith;
      on = refl;
    }

    run-IsHeld :
        (t : Tracker) (es : List TrackEntry) (cs : List Call)
        → All P (recorded cs)
        → IsHeld t es
        → IsHeld (run encode t cs) (es ++ recorded cs)
    run-IsHeld t es [] h v = subst (IsHeld t) (sym (append-nil es)) v
    run-IsHeld t es (records e ∷ cs) h v =
        subst (IsHeld (run encode (record_entry encode t e) cs))
          (append_assoc es (e ∷ []) (recorded cs))
          (run-IsHeld (record_entry encode t e) (es ++ e ∷ []) cs h.1
            (record_entry-IsHeld t es e h.0 v))
    run-IsHeld t es (flushes ∷ cs) h v = run-IsHeld (flush encode t) es cs h (flush-IsHeld t es v)

-- Let `decode` read back what `encode` makes of at most 100 entries of a kind, in fewer than 2 ^ 32
-- bytes. From an enabled tracker with an empty file, after any calls that record entries of the kind
-- and flush, the entries that are read are those that were recorded, in order.
pub run-read_all :
    (P : TrackEntry → Type 0) (encode : List TrackEntry → Option (List ℕ))
    (decode : List ℕ → Option (List TrackEntry)) (cs : List Call)
    → IsCodec P encode decode
    → All P (recorded cs)
    → read_all decode (run encode (new true []) cs) ≡ recorded cs
run-read_all P encode decode cs codec h =
    read_all-IsHeld P encode decode codec (run encode (new true []) cs) (recorded cs)
      (run-IsHeld P encode decode codec (new true []) [] cs h (start P encode decode codec))
