-- ===== src/Probe/Starttls/Wire.antt =====
-- The connection of internal/probe/starttls.go, and its reader with a budget. The bytes that the
-- server will send are a list: when it ends, the next read fails (closed, or past the deadline).
use certel.Prelude.{ℕ, zero, suc, List, [], ◌∷◌, ◌++◌, ◌==◌, if◌then◌else◌}
use certel.Prelude.Text.{Text}

-- `budget` is what is left of `lr.N`, less what the buffer still holds; `writable` is the number of
-- writes that the peer will still take.
pub record Conn : Type 0 where
  pub unread : Text
  pub budget : ℕ
  pub writable : ℕ
  pub sent : List Text

abbrev pub max_starttls_bytes : ℕ
max_starttls_bytes = 65536

abbrev pub max_continuation_lines : ℕ
max_continuation_lines = 100

-- `unsupported` is errTLSUnsupported; of the others the source keeps the text only.
pub data DialogueError : Type 0 where
  oversized network unsupported : DialogueError
  too_many_lines malformed unexpected_greeting rejected unexpected_byte : DialogueError
  no_starttls : DialogueError

pub data Answer (A : Type 0) : Type 0 where
  failed : DialogueError → Answer A
  done : A → Answer A

abbrev pub Dialogue : Type 0 → Type 0
Dialogue A = Conn → Conn × Answer A

abbrev pub answered : {A B : Type 0} → (A → Dialogue B) → Conn × Answer A → Conn × Answer B
answered f (c, failed e) = (c, failed e)
answered f (c, done a) = f a c

infixl 5 ◌>>=◌ ◌>>◌
abbrev pub ◌>>=◌ : {A B : Type 0} → Dialogue A → (A → Dialogue B) → Dialogue B
◌>>=◌ m f c = answered f (m c)

abbrev pub ◌>>◌ : {A B : Type 0} → Dialogue A → Dialogue B → Dialogue B
m >> k = m >>= λ _. k

abbrev pub give : {A : Type 0} → A → Dialogue A
give a c = (c, done a)

abbrev pub fail : {A : Type 0} → DialogueError → Dialogue A
fail e c = (c, failed e)

unfoldable pub new_reader : Dialogue (Unit {0})
new_reader c = (record c { budget = max_starttls_bytes }, done tt)

-- The bytes up to a newline, with the budget and the bytes that are left after it.
pub data LineRead : Type 0 where
  line : Text → ℕ → Text → LineRead
  over : Text → LineRead
  silent : ℕ → LineRead

abbrev pub prepend : ℕ → LineRead → LineRead
prepend b (line s n rest) = line (b ∷ s) n rest
prepend b (over rest) = over rest
prepend b (silent n) = silent n

unfoldable pub read_string : ℕ → Text → LineRead
read_string zero rest = over rest
read_string (suc n) [] = silent (suc n)
read_string (suc n) (b ∷ rest) =
    let later = read_string n rest in if b == 10 then line (b ∷ []) n rest else prepend b later

abbrev pub line_read : Conn → LineRead → Conn × Answer Text
line_read c (line s n rest) = (record c { unread = rest; budget = n }, done s)
line_read c (over rest) = (record c { unread = rest; budget = 0 }, failed oversized)
line_read c (silent n) = (record c { unread = []; budget = n }, failed network)

unfoldable pub read_line : Dialogue Text
unfolding read_string
read_line c = line_read c (read_string c.budget c.unread)

-- conn.Read of one byte, past the reader.
abbrev pub byte_read : Conn → Text → Conn × Answer ℕ
byte_read c [] = (c, failed network)
byte_read c (b ∷ rest) = (record c { unread = rest }, done b)

unfoldable pub read_byte : Dialogue ℕ
read_byte c = byte_read c c.unread

abbrev pub written : Conn → Text → ℕ → Conn × Answer (Unit {0})
written c s zero = (c, failed network)
written c s (suc n) = (record c { writable = n; sent = c.sent ++ (s ∷ []) }, done tt)

unfoldable pub write : Text → Dialogue (Unit {0})
write s c = written c s c.writable
