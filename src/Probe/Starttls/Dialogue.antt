-- ===== src/Probe/Starttls/Dialogue.antt =====
-- The dialogues of internal/probe/starttls.go, one for each protocol, on the connection of Wire.
use certel.Prelude.{
  ℕ, zero, suc, ◌-◌, Bool, true, false, not, ◌&&◌, ◌||◌, String, List, [], ◌∷◌, ◌++◌, ltb, leb,
  ◌==◌, if◌then◌else◌, take, length, str_eq,
}
use certel.Prelude.Text.{
  Text, codes, eq_text, has_prefix, contains_text, join_texts, trim_space, is_ascii_space,
}
use certel.Probe.Starttls.Wire.{
  max_continuation_lines, DialogueError, unsupported, too_many_lines, malformed,
  unexpected_greeting, rejected, unexpected_byte, no_starttls, Dialogue, ◌>>=◌, ◌>>◌, give, fail,
  new_reader, read_line, read_byte, write,
}

-- strings.TrimRight(line, "\r\n").
abbrev pub is_line_end : ℕ → Bool
is_line_end b = (b == 10) || (b == 13)

abbrev pub keep_unless : Bool → ℕ → Text → Text
keep_unless true b [] = []
keep_unless true b (a ∷ s) = b ∷ a ∷ s
keep_unless false b s = b ∷ s

unfoldable pub trim_line_end : Text → Text
trim_line_end [] = []
trim_line_end (b ∷ s) = keep_unless (is_line_end b) b (trim_line_end s)

-- strings.ToUpper, as far as it gives ASCII letters: U+017F is the long s, whose capital is S.
unfoldable pub to_upper : Text → Text
to_upper [] = []
to_upper (b ∷ []) = (if leb 97 b && leb b 122 then b - 32 else b) ∷ []
to_upper (b ∷ d ∷ s) =
    let rest = to_upper (d ∷ s) in
    let after = to_upper s in
    if (b == 197) && (d == 191)
    then 83 ∷ after
    else (if leb 97 b && leb b 122 then b - 32 else b) ∷ rest

-- The white space of Unicode in UTF-8.
abbrev is_wide_space : ℕ → ℕ → ℕ → Bool
is_wide_space a b d =
    ((a == 225) && (b == 154) && (d == 128))
    || ((a == 226)
        && (b == 128)
        && ((leb 128 d && leb d 138) || (d == 168) || (d == 169) || (d == 175)))
    || ((a == 226) && (b == 129) && (d == 159))
    || ((a == 227) && (b == 128) && (d == 128))

abbrev is_pair_space : ℕ → ℕ → Bool
is_pair_space a b = (a == 194) && ((b == 133) || (b == 160))

unfoldable pub space_bytes : Text → ℕ
space_bytes [] = 0
space_bytes (a ∷ []) = if is_ascii_space a then 1 else 0
space_bytes (a ∷ b ∷ []) = if is_ascii_space a then 1 else (if is_pair_space a b then 2 else 0)
space_bytes (a ∷ b ∷ d ∷ s) =
    if is_ascii_space a
    then 1
    else (if is_pair_space a b then 2 else (if is_wide_space a b d then 3 else 0))

-- `line[3] != '-'`, or the line is shorter.
abbrev pub is_last : Text → Bool
is_last (a ∷ b ∷ d ∷ e ∷ s) = not (e == 45)
is_last s = true

abbrev pub reply_end : List Text → Text → Dialogue (Text × Text)
reply_end lines s =
    if ltb (length s) 3 then fail malformed else give (take 3 s, join_texts (10 ∷ []) lines)

-- `readSMTPResponse`, which has read `lines` and may read `left` more.
unfoldable pub reply_lines : (left : ℕ) (lines : List Text) → Dialogue (Text × Text)
reply_lines zero lines = fail too_many_lines
reply_lines (suc left) lines = do
  raw ← read_line
  let s = trim_line_end raw
  let rest = reply_lines left (lines ++ (s ∷ []))
  if is_last s then reply_end (lines ++ (s ∷ [])) s else rest

unfoldable pub read_smtp_response : Dialogue (Text × Text)
unfolding reply_lines
read_smtp_response = reply_lines max_continuation_lines []

abbrev pub require : Bool → DialogueError → Dialogue (Unit {0})
require true e = give tt
require false e = fail e

abbrev pub crlf : Text
crlf = 13 ∷ 10 ∷ []

abbrev pub ehlo_command : Text
ehlo_command = codes "EHLO certel.monitor" ++ crlf

abbrev pub starttls_command : Text
starttls_command = codes "STARTTLS" ++ crlf

unfoldable pub starttls_smtp : Dialogue (Unit {0})
starttls_smtp = do
  new_reader
  greeting ← read_smtp_response
  require (eq_text greeting.0 (codes "220")) unexpected_greeting
  write ehlo_command
  reply ← read_smtp_response
  require (eq_text reply.0 (codes "250")) rejected
  require (contains_text (to_upper reply.1) (codes "STARTTLS")) unsupported
  write starttls_command
  verdict ← read_smtp_response
  require (eq_text verdict.0 (codes "220")) unsupported

abbrev pub imap_command : Text
imap_command = codes "a1 STARTTLS" ++ crlf

-- The loop over untagged lines.
unfoldable pub imap_lines : (left : ℕ) → Dialogue (Unit {0})
imap_lines zero = fail too_many_lines
imap_lines (suc left) = do
  raw ← read_line
  let s = trim_space space_bytes raw
  let rest = imap_lines left
  if has_prefix s (codes "a1 OK")
      then give tt
      else (if has_prefix s (codes "a1 ") then fail unsupported else rest)

unfoldable pub starttls_imap : Dialogue (Unit {0})
starttls_imap = do
  new_reader
  greeting ← read_line
  require (has_prefix greeting (codes "* OK") || has_prefix greeting (codes "* PREAUTH"))
      unexpected_greeting
  write imap_command
  imap_lines max_continuation_lines

abbrev pub pop3_command : Text
pop3_command = codes "STLS" ++ crlf

unfoldable pub starttls_pop3 : Dialogue (Unit {0})
starttls_pop3 = do
  new_reader
  greeting ← read_line
  require (has_prefix greeting (codes "+OK")) unexpected_greeting
  write pop3_command
  resp ← read_line
  require (has_prefix resp (codes "+OK")) unsupported

abbrev pub ftp_command : Text
ftp_command = codes "AUTH TLS" ++ crlf

unfoldable pub starttls_ftp : Dialogue (Unit {0})
starttls_ftp = do
  new_reader
  greeting ← read_smtp_response
  require (eq_text greeting.0 (codes "220")) unexpected_greeting
  write ftp_command
  reply ← read_smtp_response
  require (eq_text reply.0 (codes "234")) unsupported

-- 8 and 80877103 as big-endian 32-bit numbers.
abbrev pub ssl_request : Text
ssl_request = 0 ∷ 0 ∷ 0 ∷ 8 ∷ 4 ∷ 210 ∷ 22 ∷ 47 ∷ []

unfoldable pub starttls_postgres : Dialogue (Unit {0})
starttls_postgres = do
  write ssl_request
  b ← read_byte
  if b == 83 then give tt else (if b == 78 then fail unsupported else fail unexpected_byte)

unfoldable pub starttls : String → Dialogue (Unit {0})
starttls proto =
    if str_eq proto "smtp"
    then starttls_smtp
    else (if str_eq proto "imap"
        then starttls_imap
        else (if str_eq proto "pop3"
            then starttls_pop3
            else (if str_eq proto "ftp"
                then starttls_ftp
                else (if str_eq proto "postgres" then starttls_postgres else fail no_starttls))))
