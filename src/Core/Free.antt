-- ===== src/Core/Free.antt =====
-- crates/xrouter-core/src/free.rs: `is_free`. Lower case is that of ASCII letters; a letter outside
-- ASCII is kept, and no marker holds one.
use xrouter.Common.{
  ℕ, ◌+◌, Bool, ◌&&◌, ◌||◌, Text, codes, map, leb, contains, ends_with, if◌then◌else◌,
}

unfoldable pub to_lowercase : Text → Text
to_lowercase s = map (λ (c : ℕ). if leb 65 c && leb c 90 then c + 32 else c) s

unfoldable pub is_free : Text → Bool
unfolding to_lowercase
is_free name =
    let n = to_lowercase name in
    contains (codes "[free]") n
    || contains (codes "(free)") n
    || ends_with (codes "-free") n
    || ends_with (codes ":free") n
    || contains (codes "-free-") n
    || contains (codes "[free]-") n
    || contains (codes "(free)-") n
