-- ===== src/Probe/Starttls/Replies.antt =====
-- Reading back the replies that a server writes, in the dialogues of internal/probe/starttls.go.
use mathlib.Core.List.{append_assoc}
use certel.Prelude.{
  ℕ, zero, suc, ◌+◌, ◌-◌, ◌≤◌, ◌<◌, ◌≡◌, refl, sym, ap, ◌∙◌, arith, Bool, true, false, ◌&&◌, String,
  List, [], ◌∷◌, ◌++◌, ◌==◌, ltb, if◌then◌else◌, length, length-append, take, All, Bool-cases, inl,
  inr,
}
use certel.Prelude.Text.{Text, eq_text, codes, contains_text, join_texts}
use certel.Probe.Starttls.Wire.{
  Conn, max_starttls_bytes, max_continuation_lines, unsupported, failed, done, line, read_string,
  read_line, write, new_reader,
}
use certel.Probe.Starttls.Dialogue.{
  trim_line_end, is_line_end, keep_unless, is_last, reply_lines, read_smtp_response, to_upper, crlf,
  ehlo_command, starttls_command, starttls_smtp,
}

-- A line without its end: it has no newline in it and no carriage return at its end.
abbrev pub HasNoNewline : Text → Type 0
HasNoNewline s = All (λ (b : ℕ). (b == 10) ≡ false) s

pub record IsLine (last : Bool) (s : Text) : Type 0 where
  pub one : HasNoNewline s
  pub trimmed : trim_line_end s ≡ s
  pub kind : is_last s ≡ last

-- A reply: lines that are continued, and a last one.
pub record Reply : Type 0 where
  pub continued : List Text
  pub final : Text

pub record IsReply (r : Reply) : Type 0 where
  pub lines : All (IsLine false) r.continued
  pub ends : IsLine true r.final
  pub has_code : 3 ≤ length r.final
  pub few : length r.continued < max_continuation_lines

unfoldable pub wire_lines : List Text → Text → Text
wire_lines [] l = l ++ crlf
wire_lines (s ∷ rest) l = (s ++ crlf) ++ wire_lines rest l

abbrev pub wire : Reply → Text
wire r = wire_lines r.continued r.final

read_string-newline :
    (s rest : Text) (n : ℕ)
    → HasNoNewline s
    → length s < n
    → read_string n (s ++ (10 ∷ rest)) ≡ line (s ++ (10 ∷ [])) (n - suc (length s)) rest
unfolding read_string
read_string-newline s rest zero h k = let no : ⊥ = omega (arith, k) in elim no [ ]
read_string-newline [] rest (suc n) h k =
    let e : n ≡ suc n - 1 = omega arith in ap (λ (m : ℕ). line (10 ∷ []) m rest) e
read_string-newline (b ∷ s) rest (suc n) h k =
    let e : n - suc (length s) ≡ suc n - suc (suc (length s)) = omega arith in
    rw (h.0, read_string-newline s rest n h.1 (omega (arith, k)), e)

trim_line_end-crlf : (s : Text) → trim_line_end (s ++ (13 ∷ 10 ∷ [])) ≡ trim_line_end s
unfolding trim_line_end
trim_line_end-crlf [] = refl
trim_line_end-crlf (b ∷ s) = ap (keep_unless (is_line_end b) b) (trim_line_end-crlf s)

-- The connection once `k` bytes are read and `rest` is left.
abbrev pub after : Conn → ℕ → Text → Conn
after c k rest = record c { unread = rest; budget = c.budget - k }

HasNoNewline-return : (s : Text) → HasNoNewline s → HasNoNewline (s ++ (13 ∷ []))
HasNoNewline-return [] h = (refl, tt)
HasNoNewline-return (b ∷ s) h = (h.0, HasNoNewline-return s h.1)

length-crlf : (s : Text) → length (s ++ crlf) ≡ length s + 2
length-crlf s = omega (arith, length-append s crlf)

read_line-wire :
    (c : Conn) (s rest : Text)
    → HasNoNewline s
    → c.unread ≡ (s ++ crlf) ++ rest
    → length (s ++ crlf) ≤ c.budget
    → read_line c ≡ (after c (length (s ++ crlf)) rest, done (s ++ crlf))
unfolding read_line
read_line-wire c s rest h e k =
    let shape : (s ++ crlf) ++ rest ≡ (s ++ (13 ∷ [])) ++ (10 ∷ rest) =
      append_assoc s crlf rest ∙ sym (append_assoc s (13 ∷ []) (10 ∷ rest)) in
    let whole : (s ++ (13 ∷ [])) ++ (10 ∷ []) ≡ s ++ crlf = append_assoc s (13 ∷ []) (10 ∷ []) in
    let size = length-append s (13 ∷ []) in
    let enough : length (s ++ (13 ∷ [])) < c.budget = omega (arith, size, length-crlf s, k) in
    let left : c.budget - suc (length (s ++ (13 ∷ []))) ≡ c.budget - length (s ++ crlf) =
      omega (arith, size, length-crlf s) in
    rw (
      e,
      shape,
      read_string-newline (s ++ (13 ∷ [])) rest c.budget (HasNoNewline-return s h) enough,
      whole,
      left,
    )

trimmed_back : (last : Bool) (s : Text) → IsLine last s → trim_line_end (s ++ crlf) ≡ s
trimmed_back last s h = trim_line_end-crlf s ∙ h.trimmed

reply_lines-wire :
    (left : ℕ) (before conts : List Text) (l rest : Text) (c : Conn)
    → All (IsLine false) conts
    → IsLine true l
    → 3 ≤ length l
    → length conts < left
    → c.unread ≡ wire_lines conts l ++ rest
    → length (wire_lines conts l) ≤ c.budget
    → reply_lines left before c ≡ (
      after c (length (wire_lines conts l)) rest,
      done (take 3 l, join_texts (10 ∷ []) (before ++ (conts ++ (l ∷ [])))),
    )
unfolding reply_lines wire_lines
reply_lines-wire zero before conts l rest c hs h code few e k =
    let no : ⊥ = omega (arith, few) in elim no [ ]
reply_lines-wire (suc left) before [] l rest c hs h code few e k =
    let long : ltb (length l) 3 ≡ false = ground (arith, code) in
    rw (read_line-wire c l rest h.one e k, trimmed_back true l h, h.kind, long)
reply_lines-wire (suc left) before (s ∷ conts) l rest c hs h code few e k =
    let p = hs.0 in
    let more = wire_lines conts l in
    let e' : c.unread ≡ (s ++ crlf) ++ (more ++ rest) = e ∙ append_assoc (s ++ crlf) more rest in
    let size = length-append (s ++ crlf) more in
    let c' = after c (length (s ++ crlf)) (more ++ rest) in
    let first : length (s ++ crlf) ≤ c.budget = omega (arith, size, k) in
    let ih =
      reply_lines-wire left (before ++ (s ∷ [])) conts l rest c' hs.1 h code (omega (arith, few))
        refl (omega (arith, size, k)) in
    let sum : c.budget - length (s ++ crlf) - length more
        ≡ c.budget - length ((s ++ crlf) ++ more) =
      omega (arith, size) in
    rw (
      read_line-wire c s (more ++ rest) p.one e' first,
      trimmed_back false s p,
      p.kind,
      ih,
      sum,
      append_assoc before (s ∷ []) (conts ++ (l ∷ [])),
    )

abbrev pub reply_code : Reply → Text
reply_code r = take 3 r.final

abbrev pub reply_text : Reply → Text
reply_text r = join_texts (10 ∷ []) (r.continued ++ (r.final ∷ []))

-- A reply of at most 100 lines that fits the budget is read back whole, its code and the text of
-- all its lines, and what follows it stays on the connection.
pub read_smtp_response-wire :
    (r : Reply) (rest : Text) (c : Conn)
    → IsReply r
    → c.unread ≡ wire r ++ rest
    → length (wire r) ≤ c.budget
    → read_smtp_response c ≡ (after c (length (wire r)) rest, done (reply_code r, reply_text r))
unfolding read_smtp_response
read_smtp_response-wire r rest c h e k =
    reply_lines-wire max_continuation_lines [] r.continued r.final rest c h.lines h.ends h.has_code
      h.few e k

abbrev pub says : Reply → String → Bool
says r code = eq_text (reply_code r) (codes code)

abbrev pub offers_starttls : Reply → Bool
offers_starttls r = contains_text (to_upper (reply_text r)) (codes "STARTTLS")

write-writable :
    (s : Text) (c : Conn) (n : ℕ)
    → c.writable ≡ suc n
    → write s c ≡ (record c { writable = n; sent = c.sent ++ (s ∷ []) }, done tt)
unfolding write
write-writable s c n h = rw h refl

-- A mail server greets with 220, accepts EHLO with 250 and sends a third reply, in replies of at
-- most 100 lines that fit the budget, and both writes succeed. Then STARTTLS is sent exactly
-- where the reply to EHLO offers it, TLS starts exactly where it is offered and the third reply
-- is 220, and otherwise the error says that TLS is unsupported.
pub starttls_smtp-verdict :
    (g r v : Reply) (rest : Text) (c : Conn)
    → IsReply g
    → IsReply r
    → IsReply v
    → c.unread ≡ wire g ++ (wire r ++ (wire v ++ rest))
    → length (wire g) + length (wire r) + length (wire v) ≤ max_starttls_bytes
    → 2 ≤ c.writable
    → says g "220" ≡ true
    → says r "250" ≡ true
    → ((starttls_smtp c).1
        ≡ (if offers_starttls r && says v "220" then done tt else failed unsupported))
      × ((starttls_smtp c).0.sent
          ≡ c.sent ++ (ehlo_command ∷ (if offers_starttls r then starttls_command ∷ [] else [])))
unfolding starttls_smtp new_reader
starttls_smtp-verdict g r v rest c hg hr hv e k w a b =
    let n = c.writable - 2 in
    let two : c.writable ≡ suc (suc n) = omega (arith, w) in
    let c₀ = record c { budget = max_starttls_bytes } in
    let R = read_smtp_response-wire g (wire r ++ (wire v ++ rest)) c₀ hg e (omega (arith, k)) in
    let c₁ = after c₀ (length (wire g)) (wire r ++ (wire v ++ rest)) in
    let W = write-writable ehlo_command c₁ (suc n) two in
    let c₂ = record c₁ { writable = suc n; sent = c.sent ++ (ehlo_command ∷ []) } in
    let S = read_smtp_response-wire r (wire v ++ rest) c₂ hr refl (omega (arith, k)) in
    let c₃ = after c₂ (length (wire r)) (wire v ++ rest) in
    let X = write-writable starttls_command c₃ n refl in
    let c₄ = record c₃ { writable = n; sent = c₃.sent ++ (starttls_command ∷ []) } in
    let T = read_smtp_response-wire v rest c₄ hv refl (omega (arith, k)) in
    elim (Bool-cases (offers_starttls r)) [
      | inl o ↦ elim (Bool-cases (says v "220")) [
        | inl q ↦ (
          rw (R, a, W, S, b, o, X, T, q),
          rw (
            R,
            a,
            W,
            S,
            b,
            o,
            X,
            T,
            q,
            append_assoc c.sent (ehlo_command ∷ []) (starttls_command ∷ []),
          ),
        )
        | inr q ↦ (
          rw (R, a, W, S, b, o, X, T, q),
          rw (
            R,
            a,
            W,
            S,
            b,
            o,
            X,
            T,
            q,
            append_assoc c.sent (ehlo_command ∷ []) (starttls_command ∷ []),
          ),
        )
      ]
      | inr o ↦ (rw (R, a, W, S, b, o), rw (R, a, W, S, b, o))
    ]
