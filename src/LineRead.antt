-- ===== src/LineRead.antt =====
-- The line reader: engine/internal/lineread/lineread.go.
--
-- The standard library's bufio.Reader is modelled by what ReadSlice returns: the bytes up to and
-- with the delimiter if it stands within the buffer's size, otherwise a full buffer and
-- ErrBufferFull, or at the end of the stream what is left and the stream's error. The stream is the
-- list of the bytes still to come. The loops take fuel, and the reader gives them one more than the
-- bytes that are left, which `Lines` proves to be enough.
pub mod Slices
pub mod Lines
pub mod Ends
pub mod Limits
mod Examples
use agentrun.Prelude.{
  ℕ, zero, suc, ◌+◌, ◌-◌, max, Str, Bool, true, false, ◌&&◌, Option, none, some, [], ◌∷◌, ◌++◌,
  if◌then◌else◌, ltb, ◌==◌, is_empty, length, get_last?, drop_last, ℤ, pos_part,
}

abbrev pub newline : ℕ
newline = 10

abbrev pub carriage_return : ℕ
carriage_return = 13

pub data Slice : Type 0 where
  delimited : Str → Str → Slice
  buffer_full : Str → Str → Slice
  ended : Str → Slice

abbrev cons_fragment : ℕ → Slice → Slice
cons_fragment b (delimited fragment rest) = delimited (b ∷ fragment) rest
cons_fragment b (buffer_full fragment rest) = buffer_full (b ∷ fragment) rest
cons_fragment b (ended fragment) = ended (b ∷ fragment)

-- bufio.Reader.ReadSlice('\n'): the fragment and the stream behind it.
pub read_slice : ℕ → Str → Slice
read_slice zero stream = buffer_full [] stream
read_slice (suc n) [] = ended []
read_slice (suc n) (b ∷ stream) =
    let later = read_slice n stream in
    if b == newline then delimited (b ∷ []) stream else cons_fragment b later

-- Reader; `read_error` is the error at the end of the stream, `none` for io.EOF.
pub record Reader : Type 0 where
  pub buf_size : ℕ
  pub max_line_size : ℤ
  pub stream : Str
  pub read_error : Option Str

-- NewReader; bufio has a smallest buffer of 16 bytes.
pub new_reader : Str → Option Str → ℤ → ℤ → Reader
new_reader stream read_error buf_size max_line_size = record {
  buf_size = max 16 (if ltb 0 (pos_part buf_size) then pos_part buf_size else 4096);
  max_line_size = max_line_size;
  stream = stream;
  read_error = read_error;
}

pub exceeds_max : ℤ → ℕ → Bool
exceeds_max limit size = ltb 0 (pos_part limit) && ltb (pos_part limit) size

abbrev pub is_last : ℕ → Option ℕ → Bool
is_last k none = false
is_last k (some b) = b == k

pub content_estimate : ℕ → Str → ℕ
content_estimate total fragment =
    if is_last carriage_return (get_last? fragment) then total - 1 else total

-- The accumulated buffer, nil before the first fragment is kept.
abbrev pub kept : Option Str → Str
kept none = []
kept (some buf) = buf

pub newline_overhead : Option Str → Str → ℕ
newline_overhead buf fragment =
    if is_last newline (get_last? fragment)
      && is_last carriage_return (get_last? (drop_last fragment))
    then 2
    else if is_last newline (get_last? fragment)
    then (if is_last carriage_return (get_last? (kept buf)) then 2 else 1)
    else 0

abbrev pub strip_last : ℕ → Str → Str
strip_last k line = if is_last k (get_last? line) then drop_last line else line

pub strip_newline : Str → Str
strip_newline line = strip_last carriage_return (strip_last newline line)

pub finish_line : Option Str → Str → Str
unfolding strip_newline
finish_line none fragment = strip_newline fragment
finish_line (some buf) fragment = strip_newline (buf ++ fragment)

pub data LineResult : Type 0 where
  line : Str → LineResult
  line_too_long : LineResult
  eof : LineResult
  read_failed : Str → LineResult
  out_of_fuel : LineResult

-- discardLine: the stream behind the rest of the line.
pub discard_line : ℕ → ℕ → Str → Str
discard_line zero size stream = stream
discard_line (suc fuel) size stream = elim (read_slice size stream) [
  | delimited fragment rest ↦ rest
  | buffer_full fragment rest ↦ discard_line fuel size rest
  | ended fragment ↦ []
]

abbrev has_read : Option Str → Str → Bool
has_read none fragment = if is_empty fragment then false else true
has_read (some buf) fragment = true

-- handleEOFOrError
pub handle_eof_or_error : Option Str → Str → Option Str → LineResult
unfolding finish_line
handle_eof_or_error buf fragment none =
    if has_read buf fragment then line (finish_line buf fragment) else eof
handle_eof_or_error buf fragment (some err) = read_failed err

-- The loop of ReadLine: the result and the stream behind it.
pub read_loop : ℕ → Reader → Option Str → ℕ → Str → LineResult × Str
unfolding discard_line handle_eof_or_error finish_line
read_loop zero lr buf total stream = (out_of_fuel, stream)
read_loop (suc fuel) lr buf total stream = elim (read_slice lr.buf_size stream) [
  | delimited fragment rest ↦ (
    if exceeds_max lr.max_line_size (total + length fragment - newline_overhead buf fragment)
        then line_too_long
        else line (finish_line buf fragment),
    rest,
  )
  | buffer_full fragment rest ↦
      elim (exceeds_max lr.max_line_size (content_estimate (total + length fragment) fragment)) [
        | true ↦ (line_too_long, discard_line (suc fuel) lr.buf_size rest)
        | false ↦ read_loop fuel lr (some (kept buf ++ fragment)) (total + length fragment) rest
      ]
  | ended fragment ↦ (
    if exceeds_max lr.max_line_size (content_estimate (total + length fragment) fragment)
        then line_too_long
        else handle_eof_or_error buf fragment lr.read_error,
    [],
  )
]

-- ReadLine: the result, and the reader after it.
pub read_line : Reader → LineResult × Reader
read_line lr =
    let (r, rest) = read_loop (suc (length lr.stream)) lr none 0 lr.stream in
    (r, record lr { stream = rest })
