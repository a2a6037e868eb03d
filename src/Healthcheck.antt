-- ===== src/Healthcheck.antt =====
-- src/healthcheck.rs: the readiness probe of the container. Connections and deadlines are calls of
-- the standard library; the bytes that each read gives are an argument.
pub mod Laws
mod Tests
use cyberwatch_rs.Prelude.{
  ltb, leb, eqb, ◌==◌, number_eq, if◌then◌else◌, length, take, drop, all, Result, ok, err, ℕ, ◌-◌,
  String, Bool, true, false, not, ◌&&◌, ◌||◌, Option, none, some, List, [], ◌∷◌, ◌++◌,
}
use cyberwatch_rs.Http.Address.{IpAddr, v4, v6}

pub data ProbeError : Type 0 where
  -- What the socket or the deadline says.
  io : String → ProbeError
  unexpected_eof : ProbeError
  line_too_long : ProbeError
  not_ok : ProbeError

-- `windows(2).position(|pair| pair == b"\r\n")`: the bytes before the first end of a line.
unfoldable pub status_line : List ℕ → Option (List ℕ)
status_line [] = none
status_line (a ∷ []) = none
status_line (a ∷ b ∷ rest) =
    let line = status_line (b ∷ rest) in
    if eqb a 13 && eqb b 10
    then some []
    else elim line [ none ↦ none | some found ↦ some (a ∷ found) ]

abbrev pub starts_with : List ℕ → List ℕ → Bool
starts_with line [] = true
starts_with [] (p ∷ prefix) = false
starts_with (b ∷ line) (p ∷ prefix) = eqb b p && starts_with line prefix

-- A tab, or a byte that is no control character.
abbrev pub is_text : ℕ → Bool
is_text byte = eqb byte 9 || (leb 32 byte && not (eqb byte 0x7f))

-- `b"HTTP/1.1 200 "`, with the last digit of the version given.
abbrev pub ok_prefix : ℕ → List ℕ
ok_prefix minor =
    b'H' ∷ b'T' ∷ b'T' ∷ b'P' ∷ b'/' ∷ b'1' ∷ b'.' ∷ minor ∷ b' ' ∷ b'2' ∷ b'0' ∷ b'0' ∷ b' ' ∷ []

unfoldable pub check_http_status : List ℕ → Result ProbeError (Unit {0})
check_http_status line =
    if (starts_with line (ok_prefix b'1') || starts_with line (ok_prefix b'0'))
      && all is_text (drop 13 line)
    then ok tt
    else err not_ok

-- What a read gives: bytes, of which there are none at the end of the stream, or an error.
pub data Read : Type 0 where
  bytes : List ℕ → Read
  failed : String → Read

abbrev pub max_status_bytes : ℕ
max_status_bytes = 512

-- The loop over the reads; `used` are the bytes so far. A read that the schedule does not have does
-- not return before the deadline.
unfoldable pub probe_reads : List Read → List ℕ → Result ProbeError (Unit {0})
unfolding status_line check_http_status
probe_reads [] used =
    if ltb (length used) max_status_bytes
    then err (io "readiness probe timed out")
    else err line_too_long
probe_reads (failed e ∷ reads) used =
    if ltb (length used) max_status_bytes then err (io e) else err line_too_long
probe_reads (bytes [] ∷ reads) used =
    if ltb (length used) max_status_bytes then err unexpected_eof else err line_too_long
probe_reads (bytes (b ∷ bs) ∷ reads) used =
    -- No more is read than the buffer has room for.
    let now = used ++ take (max_status_bytes - length used) (b ∷ bs) in
    let rest = probe_reads reads now in
    elim (ltb (length used) max_status_bytes) [
      | false ↦ err line_too_long
      | true ↦ elim (status_line now) [ some line ↦ check_http_status line | none ↦ rest ]
    ]

-- A wildcard address is no target of a connection: the loopback of its family takes its place.
abbrev pub to_loopback : IpAddr → IpAddr
to_loopback (v4 a b c d) = if a == 0 && b == 0 && c == 0 && d == 0 then v4 127 0 0 1 else v4 a b c d
to_loopback (v6 s0 s1 s2 s3 s4 s5 s6 s7) =
    if s0 == 0 && s1 == 0 && s2 == 0 && s3 == 0 && s4 == 0 && s5 == 0 && s6 == 0 && s7 == 0
    then v6 0 0 0 0 0 0 0 1
    else v6 s0 s1 s2 s3 s4 s5 s6 s7

-- `parse` is the parser of socket addresses.
unfoldable pub probe_address :
    (String → Result String (IpAddr × ℕ)) → String → Result ProbeError (IpAddr × ℕ)
probe_address parse value = elim (parse value) [
  | ok address ↦ ok (to_loopback address.0, address.1)
  | err e ↦ err (io e)
]
