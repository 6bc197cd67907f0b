-- ===== src/LineRead/Examples.antt =====
-- The line reader's theorems at concrete inputs, and runs of it.
use agentrun.Prelude.{◌≡◌, refl, bytes, Str, [], ◌∷◌, ◌++◌, arith}
use agentrun.LineRead.{
  Reader, newline, line, line_too_long, read_line, read_loop, read_slice, exceeds_max,
  newline_overhead, content_estimate, finish_line,
}
use agentrun.LineRead.Slices.{IsContent}
use agentrun.LineRead.Lines.{read_line-accepts, read_line-rejects}
use agentrun.LineRead.Limits.{reader_of, read_line-overlong}

-- Twenty bytes and a carriage return.
abbrev long : Str
long = bytes "abcdefghijklmnopqrst" ++ 13 ∷ []

abbrev two_lines : Reader
two_lines = reader_of 16 20 (long ++ newline ∷ bytes "b")

long-IsContent : IsContent long
long-IsContent = ground arith

read_line-accepts_example :
    read_line two_lines
    ≡ (line (bytes "abcdefghijklmnopqrst"), record two_lines { stream = bytes "b" })
unfolding exceeds_max
read_line-accepts_example =
    read_line-accepts two_lines long (bytes "b") (omega arith) long-IsContent refl refl

abbrev strict : Reader
strict = reader_of 16 18 (long ++ newline ∷ bytes "b")

read_line-rejects_example : read_line strict ≡ (line_too_long, record strict { stream = bytes "b" })
unfolding exceeds_max
read_line-rejects_example =
    read_line-rejects strict long (bytes "b") (omega arith) long-IsContent refl refl

-- Sixteen bytes, the last a carriage return.
abbrev full : Str
full = bytes "abcdefghijklmno" ++ 13 ∷ []

-- A limit of 18 bytes, and a line of 19.
abbrev overlong : Reader
overlong = reader_of 16 18 ((full ++ bytes "pqr") ++ newline ∷ [])

read_line-overlong_example : (read_line overlong).0 ≡ line (full ++ bytes "pqr")
read_line-overlong_example =
    read_line-overlong overlong full b'p' (bytes "qr") [] (ground arith) refl refl refl
      (omega arith) refl refl

-- The witnesses agree with runs of the code.
overlong_run : (read_line overlong).0 ≡ line (full ++ bytes "pqr")
unfolding read_line read_loop read_slice exceeds_max newline_overhead content_estimate finish_line
overlong_run = refl
