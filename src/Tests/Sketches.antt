-- ===== src/Tests/Sketches.antt =====
-- Sketches of two short streams, and texts against a pattern.
use daikon.Prelude.{
  String, true, false, ◌≡◌, ◌↔◌, refl, some, List, [], ◌∷◌, ◌++◌, codes, arith, parse_i64,
  decimal_i64, parse_i64-decimal_i64,
}
use daikon.Prelude.Int.{negsuc}
use daikon.Error.{ok}
use daikon.HyperLogLog.{HyperLogLog, new, merge, add_all}
use daikon.HyperLogLog.Bounds.{IsValid, new-IsValid, add_all-IsValid}
use daikon.HyperLogLog.Streams.{Within, add_all_same_set}
use daikon.HyperLogLog.Merge.{merge_joint_stream}
use daikon.Glob.{matches_glob, Matches, matches_glob_iff}
use daikon.Tests.Samples.{whole_numbers}

abbrev once : List String
once = "a" ∷ "bcd" ∷ []

abbrev twice : List String
twice = "bcd" ∷ "a" ∷ "bcd" ∷ []

Within-twice : Within once twice
Within-twice x h = ground (arith, h)

Within-once : Within twice once
Within-once x h = ground (arith, h)

add_all_same_set_example : add_all (new 4) once ≡ add_all (new 4) twice
add_all_same_set_example =
    add_all_same_set (new 4) once twice (new-IsValid 4) Within-twice Within-once

merge_joint_stream_example :
    (a b c : HyperLogLog) × (add_all (new 4) once ≡ some a)
    × (add_all (new 4) twice ≡ some b)
    × (merge a b ≡ ok c)
    × (add_all (new 4) (once ++ twice) ≡ some c)
merge_joint_stream_example = merge_joint_stream 4 once twice

add_all-IsValid_example :
    (h : HyperLogLog) × (add_all (new 4) twice ≡ some h)
    × IsValid h
    × (h.precision ≡ (new 4).precision)
add_all-IsValid_example = add_all-IsValid (new 4) twice (new-IsValid 4)

matches_glob_iff_example :
    (matches_glob "user:12" "user:*" ≡ true) ↔ Matches (codes "user:*") (codes "user:12")
matches_glob_iff_example = matches_glob_iff "user:12" "user:*"

reads_back : parse_i64 (decimal_i64 (negsuc 41)) ≡ some (negsuc 41)
reads_back = parse_i64-decimal_i64 (negsuc 41) (omega arith)

unmatched : matches_glob "user:12" "user:?" ≡ false
unfolding matches_glob
unmatched = refl
