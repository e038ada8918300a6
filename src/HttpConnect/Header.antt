-- ===== src/HttpConnect/Header.antt =====
-- crates/daemon/src/http_connect.rs: the header of a CONNECT request, which is read call by call, and
-- the request in it. A call of `read` takes from the stream what the call's size says, at least one
-- byte, and at most what there is and what the buffer takes; where the sizes end, it takes all that
-- it can.
pub mod Whole
use commeatus.Prelude.{
  ℕ, zero, suc, ◌+◌, ◌-◌, ◌*◌, Bool, true, false, not, ◌||◌, Option, none, some, List, [], ◌∷◌,
  ◌++◌, leb, ◌==◌, if◌then◌else◌, Bytes, bytes, eqb, length, take, drop,
}
use Prim.Native.Nat.{min, max}
use commeatus.Text.{is_utf8}
use commeatus.Text.Lines.{split_whitespace, strip_prefix}
use commeatus.Io.{ErrorKind, invalid_data, Result, ok, err}
use commeatus.Io
use commeatus.Target.{Target}
use commeatus.Stream.{ByteStream, Exchange, ◌>>=◌, lift, return}
use commeatus.HttpConnect.{parse_authority}

abbrev pub max_header_bytes : ℕ
max_header_bytes = 16 * 1024

abbrev pub blank_line : Bytes
blank_line = bytes "\r\n\r\n"

-- `find_header_end`: the first window of four bytes that is `\r\n\r\n`
unfoldable pub find_header_end : Bytes → Option ℕ
find_header_end [] = none
find_header_end (c ∷ cs) =
    let later = find_header_end cs in
    if eqb (take 4 (c ∷ cs)) blank_line
    then some 0
    else elim later [ none ↦ none | some end ↦ some (suc end) ]

-- How much a call of `read` takes, with the buffer that there is.
abbrev pub first_size : List ℕ → ℕ
first_size [] = 1024
first_size (size ∷ sizes) = max 1 size

abbrev pub later_sizes : List ℕ → List ℕ
later_sizes [] = []
later_sizes (size ∷ sizes) = sizes

abbrev pub read_size : Bytes → List ℕ → ℕ
read_size buffer sizes = min (min (max_header_bytes - length buffer) 1024) (first_size sizes)

-- The loop of `read_request`: the header and what the buffer has behind it.
unfoldable pub read_header : ℕ → List ℕ → Bytes → Exchange (Bytes × Bytes)
read_header zero sizes buffer s = (err invalid_data, s)
read_header (suc rounds) sizes buffer s = elim (find_header_end buffer) [
  | some end ↦ (ok (take end buffer, drop (end + 4) buffer), s)
  | none ↦ elim (leb max_header_bytes (length buffer)) [
    | true ↦ (err invalid_data, s)
    | false ↦ elim s.input [
      | [] ↦ (err s.ended, s)
      | c ∷ cs ↦
          read_header rounds (later_sizes sizes) (buffer ++ take (read_size buffer sizes) (c ∷ cs))
            (record s { input = drop (read_size buffer sizes) (c ∷ cs) })
    ]
  ]
]

-- `split("\r\n").next()`
unfoldable pub first_line : Bytes → Bytes
first_line [] = []
first_line (c ∷ cs) =
    let rest = first_line cs in if eqb (take 2 (c ∷ cs)) (bytes "\r\n") then [] else c ∷ rest

abbrev pub starts_with : Bytes → Bytes → Bool
starts_with prefix s = elim (strip_prefix prefix s) [ none ↦ false | some _ ↦ true ]

-- The method, the authority and the version, and no more fields.
unfoldable pub connect_authority : List Bytes → Result Bytes
connect_authority (method ∷ authority ∷ version ∷ []) =
    if not (eqb method (bytes "CONNECT")) || not (starts_with (bytes "HTTP/1.") version)
    then err invalid_data
    else ok authority
connect_authority _ = err invalid_data

unfoldable pub parse_header : Bytes → Result Target
parse_header header =
    if not (is_utf8 header)
    then err invalid_data
    else Io.◌>>=◌ (connect_authority (split_whitespace (first_line header))) parse_authority

-- The target, and the bytes of the tunnel that came with the header.
abbrev pub parse_request : Bytes × Bytes → Exchange (Target × Bytes)
parse_request (header, tunnel) = do target ← lift (parse_header header); return (target, tunnel)

unfoldable pub read_request : List ℕ → Exchange (Target × Bytes)
read_request sizes = read_header (max_header_bytes + 1) sizes [] >>= parse_request
