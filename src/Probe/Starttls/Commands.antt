-- ===== src/Probe/Starttls/Commands.antt =====
-- Which commands the dialogues of internal/probe/starttls.go send, and how much they read.
use mathlib.Core.List.{append-nil}
use certel.Prelude.{
  ℕ, zero, suc, ◌+◌, ◌≤◌, ◌≡◌, refl, sym, ap, arith, Bool, true, false, String, List, [], ◌∷◌, ◌++◌,
  ◌||◌, ◌==◌, if◌then◌else◌, length, length-append, str_eq,
}
use certel.Prelude.Text.{Text, eq_text, codes, has_prefix, contains_text}
use certel.Probe.Starttls.Wire.{
  Conn, max_starttls_bytes, max_continuation_lines, DialogueError, unsupported, rejected,
  unexpected_greeting, unexpected_byte, no_starttls, done, Dialogue, answered, byte_read, written,
  ◌>>=◌, ◌>>◌, give, fail, new_reader, read_byte, write,
}
use certel.Probe.Starttls.Dialogue.{
  trim_line_end, is_last, reply_lines, read_smtp_response, require, to_upper, ehlo_command,
  starttls_command, imap_command, pop3_command, ftp_command, ssl_request, starttls_smtp, imap_lines,
  starttls_imap, starttls_pop3, starttls_ftp, starttls_postgres, starttls,
}
use certel.Probe.Starttls.Course.{
  Course, give-Course, fail-Course, require-Course, choose-Course, bind-Course, read_line-Course,
  read_byte-Course, write-Course,
}

reply_lines-Course : (left : ℕ) (lines : List Text) → Course 0 [] (reply_lines left lines)
unfolding reply_lines
reply_lines-Course zero lines = fail-Course _
reply_lines-Course (suc left) lines = bind-Course read_line-Course (λ raw.
    choose-Course (is_last (trim_line_end raw)) (choose-Course _ (fail-Course _) (give-Course _))
      (reply_lines-Course left (lines ++ (trim_line_end raw ∷ []))))

response-Course : Course 0 [] read_smtp_response
unfolding read_smtp_response
response-Course = reply_lines-Course max_continuation_lines []

imap_lines-Course : (left : ℕ) → Course 0 [] (imap_lines left)
unfolding imap_lines
imap_lines-Course zero = fail-Course _
imap_lines-Course (suc left) = bind-Course read_line-Course (λ raw.
    choose-Course _ (give-Course tt)
      (choose-Course _ (fail-Course unsupported) (imap_lines-Course left)))

-- The commands of each dialogue.
unfoldable pub commands_of : String → List Text
commands_of proto =
    if str_eq proto "smtp"
    then ehlo_command ∷ starttls_command ∷ []
    else (if str_eq proto "imap"
        then imap_command ∷ []
        else (if str_eq proto "pop3"
            then pop3_command ∷ []
            else (if str_eq proto "ftp"
                then ftp_command ∷ []
                else (if str_eq proto "postgres" then ssl_request ∷ [] else []))))

-- A dialogue whose reader has the whole budget, or that makes none.
record Frugal (commands : List Text) (m : Dialogue (Unit {0})) (c : Conn) : Type 0 where
  few : length c.unread ≤ length (m c).0.unread + max_starttls_bytes
  said : List Text
  unsaid : List Text
  commands_split : said ++ unsaid ≡ commands
  sent_said : (m c).0.sent ≡ c.sent ++ said
  whole : (m c).1 ≡ done tt → unsaid ≡ []

fresh-Frugal :
    {commands : List Text} {m : Dialogue (Unit {0})}
    → Course 0 commands m
    → (c : Conn) → Frugal commands (new_reader >> m) c
unfolding new_reader
fresh-Frugal {commands} {m} p c =
    let c' = record c { budget = max_starttls_bytes } in
    let q = p.ran c' in
    record {
      few = omega (arith, q.paid, length-append q.taken (m c').0.unread, ap length q.split);
      said = q.said;
      unsaid = q.unsaid;
      commands_split = q.commands_split;
      sent_said = q.sent_said;
      whole = q.whole tt;
    }

-- A reply that is tested, and the command that follows it.
step-Course :
    {A : Type 0} {m : Dialogue A} {ys : List Text} {next : Dialogue (Unit {0})} (test : A → Bool)
    (e : DialogueError) (s : Text)
    → Course 0 [] m
    → Course 0 ys next
    → Course 0 (s ∷ ys) (m >>= λ a. require (test a) e >> (write s >> next))
step-Course test e s p q =
    bind-Course p
      (λ a. bind-Course (require-Course (test a) e) (λ _. bind-Course (write-Course s) (λ _. q)))

-- A reply that is tested last.
verdict-Course :
    {A : Type 0} {m : Dialogue A} (test : A → Bool) (e : DialogueError)
    → Course 0 [] m
    → Course 0 [] (m >>= λ a. require (test a) e)
verdict-Course test e p = bind-Course p (λ a. require-Course (test a) e)

abbrev has_code : String → Text × Text → Bool
has_code code reply = eq_text reply.0 (codes code)

smtp-Frugal : (c : Conn) → Frugal (ehlo_command ∷ starttls_command ∷ []) starttls_smtp c
unfolding starttls_smtp
smtp-Frugal = fresh-Frugal (
    step-Course (has_code "220") unexpected_greeting ehlo_command response-Course (
      bind-Course response-Course (λ reply.
        bind-Course (require-Course (has_code "250" reply) rejected) (λ _.
          bind-Course
            (require-Course (contains_text (to_upper reply.1) (codes "STARTTLS")) unsupported)
            (λ _.
              bind-Course (write-Course starttls_command)
                (λ _. verdict-Course (has_code "220") unsupported response-Course))))))

imap-Frugal : (c : Conn) → Frugal (imap_command ∷ []) starttls_imap c
unfolding starttls_imap
imap-Frugal = fresh-Frugal (
    step-Course (λ (g : Text). has_prefix g (codes "* OK") || has_prefix g (codes "* PREAUTH"))
      unexpected_greeting imap_command read_line-Course (imap_lines-Course max_continuation_lines))

pop3-Frugal : (c : Conn) → Frugal (pop3_command ∷ []) starttls_pop3 c
unfolding starttls_pop3
pop3-Frugal =
    let accepts = λ (g : Text). has_prefix g (codes "+OK") in
    fresh-Frugal (
      step-Course accepts unexpected_greeting pop3_command read_line-Course
        (verdict-Course accepts unsupported read_line-Course))

ftp-Frugal : (c : Conn) → Frugal (ftp_command ∷ []) starttls_ftp c
unfolding starttls_ftp
ftp-Frugal = fresh-Frugal (
    step-Course (has_code "220") unexpected_greeting ftp_command response-Course
      (verdict-Course (has_code "234") unsupported response-Course))

-- The postgres dialogue without the budget of a reader: it reads one byte.
postgres-Course : Course 1 (ssl_request ∷ []) starttls_postgres
unfolding starttls_postgres
postgres-Course = bind-Course (write-Course ssl_request) (λ _. bind-Course read_byte-Course (λ b.
    choose-Course (b == 83) (give-Course tt)
      (choose-Course (b == 78) (fail-Course unsupported) (fail-Course unexpected_byte))))

byte_read-le :
    (c : Conn) (s : Text) (f : ℕ → Dialogue (Unit {0}))
    → c.unread ≡ s
    → ((b : ℕ) (d : Conn) → (f b d).0 ≡ d)
    → length c.unread ≤ suc (length (answered f (byte_read c s)).0.unread)
byte_read-le c [] f e stays = omega arith
byte_read-le c (b ∷ s) f e stays =
    let d = record c { unread = s } in
    omega (arith, ap length e, ap (λ (x : Conn). length x.unread) (stays b d))

postgres-few :
    (c : Conn) → length c.unread ≤ length (starttls_postgres c).0.unread + max_starttls_bytes
unfolding starttls_postgres write read_byte
postgres-few c = spend c.writable
  where
    answer : ℕ → Dialogue (Unit {0})
    answer b =
        if b == 83 then give tt else (if b == 78 then fail unsupported else fail unexpected_byte)

    stays : (b : ℕ) (d : Conn) → (answer b d).0 ≡ d
    stays b d = settle (b == 83) (b == 78)
      where
        settle :
            (s n : Bool)
            → ((if s then give tt else (if n then fail unsupported else fail unexpected_byte)) d).0
              ≡ d
        settle true n = refl
        settle false true = refl
        settle false false = refl

    spend :
        (n : ℕ)
        → length c.unread
          ≤ length (answered (λ _. read_byte >>= answer) (written c ssl_request n)).0.unread
            + max_starttls_bytes
    spend zero = omega arith
    spend (suc n) =
        let d = record c { writable = n; sent = c.sent ++ (ssl_request ∷ []) } in
        omega (arith, byte_read-le d c.unread answer refl stays)

postgres-Frugal : (c : Conn) → Frugal (ssl_request ∷ []) starttls_postgres c
postgres-Frugal c =
    let p = postgres-Course in
    let q = p.ran c in
    record {
      few = postgres-few c;
      said = q.said;
      unsaid = q.unsaid;
      commands_split = q.commands_split;
      sent_said = q.sent_said;
      whole = q.whole tt;
    }

no_dialogue-Frugal : (c : Conn) → Frugal [] (fail no_starttls) c
no_dialogue-Frugal c = record {
  few = omega arith;
  said = [];
  unsaid = [];
  commands_split = refl;
  sent_said = sym (append-nil c.sent);
  whole = λ h. refl;
}

starttls-Frugal : (proto : String) (c : Conn) → Frugal (commands_of proto) (starttls proto) c
unfolding starttls commands_of
starttls-Frugal proto c = pick (str_eq proto "smtp") (smtp-Frugal c) (
    pick (str_eq proto "imap") (imap-Frugal c) (
      pick (str_eq proto "pop3") (pop3-Frugal c) (
        pick (str_eq proto "ftp") (ftp-Frugal c)
          (pick (str_eq proto "postgres") (postgres-Frugal c) (no_dialogue-Frugal c)))))
  where
    pick :
        (b : Bool) {xs ys : List Text} {m n : Dialogue (Unit {0})}
        → Frugal xs m c
        → Frugal ys n c
        → Frugal (if b then xs else ys) (if b then m else n) c
    pick true p q = p
    pick false p q = q

-- Whatever the server sends, and however it ends, one STARTTLS dialogue takes at most 65,536
-- bytes of it.
pub starttls-frugal :
    (proto : String) (c : Conn)
    → length c.unread ≤ length (starttls proto c).0.unread + max_starttls_bytes
starttls-frugal proto c = let p = starttls-Frugal proto c in p.few

-- Whatever the server sends, a dialogue sends the commands of its protocol in order and no
-- others, and it has sent all of them where the TLS handshake may start.
pub starttls-commands :
    (proto : String) (c : Conn)
    → (said : List Text) × (unsaid : List Text) × (said ++ unsaid ≡ commands_of proto)
      × ((starttls proto c).0.sent ≡ c.sent ++ said)
      × ((starttls proto c).1 ≡ done tt → unsaid ≡ [])
starttls-commands proto c =
    let p = starttls-Frugal proto c in (p.said, p.unsaid, p.commands_split, p.sent_said, p.whole)
