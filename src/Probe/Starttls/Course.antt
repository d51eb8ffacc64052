-- ===== src/Probe/Starttls/Course.antt =====
-- The course of a dialogue of internal/probe/starttls.go: what it takes off the stream and which of
-- its commands it has sent when it stops.
use mathlib.Core.List.{append_assoc, append-nil}
use certel.Prelude.{
  ℕ, zero, suc, ◌+◌, ◌≤◌, ◌≡◌, refl, sym, ap, ◌∙◌, arith, Bool, true, false, List, [], ◌∷◌, ◌++◌,
  ◌==◌, if◌then◌else◌, length, length-append,
}
use certel.Prelude.Text.{Text}
use certel.Probe.Starttls.Wire.{
  Conn, DialogueError, Answer, failed, done, Dialogue, ◌>>=◌, answered, give, fail, LineRead, line,
  over, silent, prepend, read_string, line_read, read_line, read_byte, byte_read, write, written,
}
use certel.Probe.Starttls.Dialogue.{require}

-- `extra` bytes at most are read past the budget; the commands are sent in order, and all of them
-- where the dialogue is done.
pub record Ran {A : Type 0} (extra : ℕ) (commands : List Text) (c c' : Conn) (ans : Answer A)
    : Type 0 where
  pub taken : Text
  pub split : c.unread ≡ taken ++ c'.unread
  pub paid : length taken + c'.budget ≤ c.budget + extra
  pub said : List Text
  pub unsaid : List Text
  pub commands_split : said ++ unsaid ≡ commands
  pub sent_said : c'.sent ≡ c.sent ++ said
  pub whole : (a : A) → ans ≡ done a → unsaid ≡ []

pub record Course {A : Type 0} (extra : ℕ) (commands : List Text) (m : Dialogue A) : Type 0 where
  pub ran : (c : Conn) → Ran extra commands c (m c).0 (m c).1

silent-Ran : {A : Type 0} (c : Conn) (ans : Answer A) → Ran 0 [] c c ans
silent-Ran c ans = record {
  taken = [];
  split = refl;
  paid = omega arith;
  said = [];
  unsaid = [];
  commands_split = refl;
  sent_said = sym (append-nil c.sent);
  whole = λ a e. refl;
}

pub give-Course : {A : Type 0} (a : A) → Course 0 [] (give a)
give-Course a = record { ran = λ c. silent-Ran c (done a) }

-- A dialogue that fails here has not said what was still to say.
pub fail-Course : {A : Type 0} (e : DialogueError) → Course 0 [] (fail {A = A} e)
fail-Course e = record { ran = λ c. silent-Ran c (failed e) }

pub require-Course : (b : Bool) (e : DialogueError) → Course 0 [] (require b e)
require-Course true e = give-Course tt
require-Course false e = fail-Course e

pub choose-Course :
    {A : Type 0} {k : ℕ} {xs : List Text} (b : Bool) {m n : Dialogue A}
    → Course k xs m
    → Course k xs n
    → Course k xs (if b then m else n)
choose-Course true p q = p
choose-Course false p q = q

then-Ran :
    {A B : Type 0} (j k : ℕ) (xs ys : List Text) (c d e : Conn) (a : A) (ans : Answer B)
    → Ran {A = A} j xs c d (done a)
    → Ran k ys d e ans
    → Ran (j + k) (xs ++ ys) c e ans
then-Ran j k xs ys c d e a ans p q =
    let nothing = p.whole a refl in
    let all =
      sym (append-nil p.said)
      ∙ ap (λ (s : List Text). p.said ++ s) (sym nothing)
      ∙ p.commands_split in
    record {
      taken = p.taken ++ q.taken;
      split =
          p.split
          ∙ ap (λ (s : Text). p.taken ++ s) q.split
          ∙ sym (append_assoc p.taken q.taken e.unread);
      paid = omega (arith, length-append p.taken q.taken, p.paid, q.paid);
      said = p.said ++ q.said;
      unsaid = q.unsaid;
      commands_split =
          append_assoc p.said q.said q.unsaid
          ∙ ap (λ (s : List Text). p.said ++ s) q.commands_split
          ∙ ap (λ (s : List Text). s ++ ys) all;
      sent_said =
          q.sent_said
          ∙ ap (λ (s : List Text). s ++ q.said) p.sent_said
          ∙ append_assoc c.sent p.said q.said;
      whole = q.whole;
    }

stopped-Ran :
    {A B : Type 0} (j k : ℕ) (xs ys : List Text) (c d : Conn) (e : DialogueError)
    → Ran {A = A} j xs c d (failed e)
    → Ran {A = B} (j + k) (xs ++ ys) c d (failed e)
stopped-Ran j k xs ys c d e p = record {
  taken = p.taken;
  split = p.split;
  paid = omega (arith, p.paid);
  said = p.said;
  unsaid = p.unsaid ++ ys;
  commands_split =
      sym (append_assoc p.said p.unsaid ys) ∙ ap (λ (s : List Text). s ++ ys) p.commands_split;
  sent_said = p.sent_said;
  whole = λ a h. cc;
}

answered-Ran :
    {A B : Type 0} (j k : ℕ) (xs ys : List Text) (c : Conn) (x : Conn × Answer A)
    (f : A → Dialogue B)
    → Ran j xs c x.0 x.1
    → ((a : A) → Course k ys (f a))
    → Ran (j + k) (xs ++ ys) c (answered f x).0 (answered f x).1
answered-Ran j k xs ys c (d, failed e) f p q = stopped-Ran j k xs ys c d e p
answered-Ran j k xs ys c (d, done a) f p q =
    let r = q a in then-Ran j k xs ys c d (f a d).0 a (f a d).1 p (r.ran d)

pub bind-Course :
    {A B : Type 0} {j k : ℕ} {xs ys : List Text} {m : Dialogue A} {f : A → Dialogue B}
    → Course j xs m
    → ((a : A) → Course k ys (f a))
    → Course (j + k) (xs ++ ys) (m >>= f)
bind-Course {A} {B} {j} {k} {xs} {ys} {m} {f} p q = record {
  ran = λ c. answered-Ran j k xs ys c (m c) f (p.ran c) q;
}

-- One line: the bytes up to the newline, or all that there are, or all that the budget allows.
abbrev LineSpent : ℕ → Text → LineRead → Type 0
LineSpent n s (line l m rest) = (s ≡ l ++ rest) × (length l + m ≡ n)
LineSpent n s (over rest) = (l : Text) × (s ≡ l ++ rest) × (length l ≡ n)
LineSpent n s (silent m) = length s + m ≡ n

prepend-LineSpent :
    (b n : ℕ) (s : Text) (x : LineRead) → LineSpent n s x → LineSpent (suc n) (b ∷ s) (prepend b x)
prepend-LineSpent b n s (line l m rest) h = (cc h.0, omega (arith, h.1))
prepend-LineSpent b n s (over rest) (l, e, k) = (b ∷ l, cc e, omega (arith, k))
prepend-LineSpent b n s (silent m) h = omega (arith, h)

read_string-LineSpent : (n : ℕ) (s : Text) → LineSpent n s (read_string n s)
unfolding read_string
read_string-LineSpent zero s = ([], refl, refl)
read_string-LineSpent (suc n) [] = omega arith
read_string-LineSpent (suc n) (b ∷ s) =
    choose (b == 10) (prepend-LineSpent b n s (read_string n s) (read_string-LineSpent n s))
  where
    choose :
        (t : Bool)
        → LineSpent (suc n) (b ∷ s) (prepend b (read_string n s))
        → LineSpent (suc n) (b ∷ s) (if t then line (b ∷ []) n s else prepend b (read_string n s))
    choose true h = (refl, omega arith)
    choose false h = h

-- A step that sends nothing.
read-Ran :
    {A : Type 0} (extra : ℕ) (c : Conn) (l rest : Text) (n : ℕ) (ans : Answer A)
    → c.unread ≡ l ++ rest
    → length l + n ≤ c.budget + extra
    → Ran extra [] c (record c { unread = rest; budget = n }) ans
read-Ran extra c l rest n ans e k = record {
  taken = l;
  split = e;
  paid = k;
  said = [];
  unsaid = [];
  commands_split = refl;
  sent_said = sym (append-nil c.sent);
  whole = λ a h. refl;
}

line-Ran :
    (c : Conn) (x : LineRead)
    → LineSpent c.budget c.unread x
    → Ran 0 [] c (line_read c x).0 (line_read c x).1
line-Ran c (line l m rest) h = read-Ran 0 c l rest m (done l) h.0 (omega (arith, h.1))
line-Ran c (over rest) (l, e, k) = read-Ran 0 c l rest 0 _ e (omega (arith, k))
line-Ran c (silent m) h =
    read-Ran 0 c c.unread [] m _ (sym (append-nil c.unread)) (omega (arith, h))

pub read_line-Course : Course 0 [] read_line
unfolding read_line
read_line-Course = record {
  ran = λ c. line-Ran c (read_string c.budget c.unread) (read_string-LineSpent c.budget c.unread);
}

byte-Ran : (c : Conn) (s : Text) → c.unread ≡ s → Ran 1 [] c (byte_read c s).0 (byte_read c s).1
byte-Ran c [] e = read-Ran 1 c [] c.unread c.budget _ refl (omega arith)
byte-Ran c (b ∷ rest) e = read-Ran 1 c (b ∷ []) rest c.budget _ e (omega arith)

pub read_byte-Course : Course 1 [] read_byte
unfolding read_byte
read_byte-Course = record { ran = λ c. byte-Ran c c.unread refl }

written-Ran : (c : Conn) (s : Text) (n : ℕ) → Ran 0 (s ∷ []) c (written c s n).0 (written c s n).1
written-Ran c s zero = record {
  taken = [];
  split = refl;
  paid = omega arith;
  said = [];
  unsaid = s ∷ [];
  commands_split = refl;
  sent_said = sym (append-nil c.sent);
  whole = λ a h. cc;
}
written-Ran c s (suc n) = record {
  taken = [];
  split = refl;
  paid = omega arith;
  said = s ∷ [];
  unsaid = [];
  commands_split = refl;
  sent_said = refl;
  whole = λ a h. refl;
}

pub write-Course : (s : Text) → Course 0 (s ∷ []) (write s)
unfolding write
write-Course s = record { ran = λ c. written-Ran c s c.writable }
