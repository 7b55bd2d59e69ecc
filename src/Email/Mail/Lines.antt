-- ===== src/Email/Mail/Lines.antt =====
-- What a reader of mails makes of a message.
use Prim.Native.Char.{Char, code}
use Prim.Native.String.append
use bank_system.Prelude.{
  ◌≡◌, refl, sym, ap, ◌∙◌, String, str_append, Bool, true, false, not, ◌&&◌, List, [], ◌∷◌, ◌==◌,
  if◌then◌else◌, arith,
}
use bank_system.Email.{Job}
use bank_system.Email.Mail.{render_template, message}

abbrev is_cr : Char → Bool
is_cr c = code c == 13

abbrev is_lf : Char → Bool
is_lf c = code c == 10

-- No carriage return and no line feed is in a text.
abbrev pub is_one_line : String → Bool
is_one_line String.[] = true
is_one_line (String.◌∷◌ c s) = not (is_cr c) && not (is_lf c) && is_one_line s

pub data Place : Type 0 where
  line_start in_line after_cr : Place

abbrev push : Char → List String → List String
push c [] = String.◌∷◌ c "" ∷ []
push c (x ∷ l) = String.◌∷◌ c x ∷ l

abbrev text_tail : String → String
text_tail String.[] = ""
text_tail (String.◌∷◌ c s) = s

-- The lines of the header, which an empty line ends, and the rest. A line ends with a carriage
-- return and a line feed, or with a line feed alone, which net/smtp sends as both.
abbrev pub read_mail : Place → String → List String × String
read_mail line_start String.[] = ([], "")
read_mail after_cr String.[] = ([], "")
read_mail in_line String.[] = ("" ∷ [], "")
read_mail after_cr (String.◌∷◌ c s) = read_mail line_start s
read_mail line_start (String.◌∷◌ c s) =
    let (l, body) = read_mail in_line s in
    if is_cr c then ([], text_tail s) else if is_lf c then ([], s) else (push c l, body)
read_mail in_line (String.◌∷◌ c s) =
    let (l, body) = read_mail in_line s in
    let (l', body') = read_mail after_cr s in
    let (l'', body'') = read_mail line_start s in
    if is_cr c then ("" ∷ l', body') else if is_lf c then ("" ∷ l'', body'') else (push c l, body)

abbrev in_front : String → List String × String → List String × String
in_front t (l, body) = (t ∷ l, body)

assoc : (s t u : String) → str_append (str_append s t) u ≡ str_append s (str_append t u)
assoc String.[] t u = ap (λ x. str_append x u) (append.nil t) ∙ sym (append.nil (str_append t u))
assoc (String.◌∷◌ c s) t u =
    ap (λ x. str_append x u) (append.cons c s t)
    ∙ append.cons c (str_append s t) u
    ∙ ap (λ x. String.◌∷◌ c x) (assoc s t u)
    ∙ sym (append.cons c s (str_append t u))

break_first : (u : String) → str_append "\r\n" u ≡ String.◌∷◌ "\r" (String.◌∷◌ "\n" u)
break_first u =
    append.cons "\r" "\n" u
    ∙ ap (λ x. String.◌∷◌ "\r" x)
        (append.cons "\n" "" u ∙ ap (λ x. String.◌∷◌ "\n" x) (append.nil u))

one_line-cons :
    (c : Char) (t : String)
    → is_one_line (String.◌∷◌ c t) ≡ true
    → (is_cr c ≡ false) × (is_lf c ≡ false) × (is_one_line t ≡ true)
one_line-cons c t h = (ground arith, ground arith, ground arith)

-- A text on one line, up to its break, is a line.
in_line_lem :
    (t u : String)
    → is_one_line t ≡ true
    → read_mail in_line (str_append t (str_append "\r\n" u)) ≡ in_front t (read_mail line_start u)
in_line_lem String.[] u h =
    ap (read_mail in_line) (append.nil (str_append "\r\n" u) ∙ break_first u)
in_line_lem (String.◌∷◌ c t) u h =
    let (not_cr, not_lf, rest) = one_line-cons c t h in
    ap (read_mail in_line) (append.cons c t (str_append "\r\n" u))
    ∙ goes_on c (str_append t (str_append "\r\n" u)) not_cr not_lf
    ∙ ap (λ p. (push c p.0, p.1)) (in_line_lem t u rest)
  where
    goes_on :
        (c : Char) (s : String)
        → is_cr c ≡ false
        → is_lf c ≡ false
        → read_mail in_line (String.◌∷◌ c s)
          ≡ (push c (read_mail in_line s).0, (read_mail in_line s).1)
    goes_on c s h k = rw (h, k) refl

one_line-append :
    (s t : String)
    → is_one_line s ≡ true
    → is_one_line t ≡ true
    → is_one_line (str_append s t) ≡ true
one_line-append String.[] t h k = ap is_one_line (append.nil t) ∙ k
one_line-append (String.◌∷◌ c s) t h k =
    let (not_cr, not_lf, rest) = one_line-cons c s h in
    let later = one_line-append s t rest k in
    ap is_one_line (append.cons c s t) ∙ first_too (is_cr c) (is_lf c) _ not_cr not_lf later
  where
    first_too : (x y z : Bool) → x ≡ false → y ≡ false → z ≡ true → (not x && not y && z) ≡ true
    first_too x y z h k m = ground arith

plain_line :
    (c : Char) (t u : String)
    → is_one_line (String.◌∷◌ c t) ≡ true
    → read_mail line_start (str_append (String.◌∷◌ c t) (str_append "\r\n" u))
      ≡ in_front (String.◌∷◌ c t) (read_mail line_start u)
plain_line c t u h =
    let (not_cr, not_lf, rest) = one_line-cons c t h in
    ap (read_mail line_start) (append.cons c t (str_append "\r\n" u))
    ∙ starts c (str_append t (str_append "\r\n" u)) not_cr not_lf
    ∙ ap (λ p. (push c p.0, p.1)) (in_line_lem t u rest)
  where
    starts :
        (c : Char) (s : String)
        → is_cr c ≡ false
        → is_lf c ≡ false
        → read_mail line_start (String.◌∷◌ c s)
          ≡ (push c (read_mail in_line s).0, (read_mail in_line s).1)
    starts c s h k = rw (h, k) refl

-- A line with a name and a value.
named_line :
    (c : Char) (name value u : String)
    → is_one_line (String.◌∷◌ c name) ≡ true
    → is_one_line value ≡ true
    → read_mail line_start (str_append (String.◌∷◌ c name) (str_append value (str_append "\r\n" u)))
      ≡ in_front (str_append (String.◌∷◌ c name) value) (read_mail line_start u)
named_line c name value u h k =
    let joined = append.cons c name value in
    ap (read_mail line_start) (
      sym (assoc (String.◌∷◌ c name) value (str_append "\r\n" u))
      ∙ ap (λ x. str_append x (str_append "\r\n" u)) joined)
    ∙ plain_line c (str_append name value) u
        (ap is_one_line (sym joined) ∙ one_line-append (String.◌∷◌ c name) value h k)
    ∙ ap (λ x. in_front x (read_mail line_start u)) (sym joined)

-- The same before a text that begins with the break.
field :
    (c : Char) (name value next u : String)
    → is_one_line (String.◌∷◌ c name) ≡ true
    → is_one_line value ≡ true
    → read_mail line_start
        (str_append (String.◌∷◌ c name) (str_append value (str_append (str_append "\r\n" next) u)))
      ≡ in_front (str_append (String.◌∷◌ c name) value) (read_mail line_start (str_append next u))
field c name value next u h k =
    ap (λ x. read_mail line_start (str_append (String.◌∷◌ c name) (str_append value x)))
      (assoc "\r\n" next u)
    ∙ named_line c name value (str_append next u) h k

-- The end of the header.
empty_line : (u : String) → read_mail line_start (str_append "\r\n" u) ≡ ([], u)
empty_line u = ap (read_mail line_start) (break_first u)

abbrev pub header : String → String → String → List String
header from to subject =
    str_append "From: " from
    ∷ str_append "To: " to
    ∷ str_append "Subject: " subject
    ∷ "MIME-Version: 1.0"
    ∷ "Content-Type: text/html; charset=\"UTF-8\""
    ∷ []

mime_header :
    (body : String)
    → read_mail line_start
        (str_append "MIME-Version: 1.0\r\nContent-Type: text/html; charset=\"UTF-8\"\r\n\r\n" body)
      ≡ ("MIME-Version: 1.0" ∷ "Content-Type: text/html; charset=\"UTF-8\"" ∷ [], body)
mime_header body =
    ap (read_mail line_start) (
      assoc "MIME-Version: 1.0" "\r\nContent-Type: text/html; charset=\"UTF-8\"\r\n\r\n" body
      ∙ ap (str_append "MIME-Version: 1.0")
          (assoc "\r\n" "Content-Type: text/html; charset=\"UTF-8\"\r\n\r\n" body))
    ∙ plain_line "M" "IME-Version: 1.0"
        (str_append "Content-Type: text/html; charset=\"UTF-8\"\r\n\r\n" body) refl
    ∙ ap (in_front "MIME-Version: 1.0") (
        ap (read_mail line_start) (
          assoc "Content-Type: text/html; charset=\"UTF-8\"" "\r\n\r\n" body
          ∙ ap (str_append "Content-Type: text/html; charset=\"UTF-8\"") (assoc "\r\n" "\r\n" body))
        ∙ plain_line "C" "ontent-Type: text/html; charset=\"UTF-8\"" (str_append "\r\n" body) refl
        ∙ ap (in_front "Content-Type: text/html; charset=\"UTF-8\"") (empty_line body))

-- If no line break is in the sender's address, the recipient's or the subject, neither a carriage
-- return nor a line feed, a reader of the mail finds the five lines of the header with these
-- values, no other line, and the body that the template has made.
pub read_mail-message :
    (from : String) (job : Job)
    → is_one_line from ≡ true
    → is_one_line job.to ≡ true
    → is_one_line (render_template job).0 ≡ true
    → read_mail line_start (message from job)
      ≡ (header from job.to (render_template job).0, (render_template job).1)
unfolding message
read_mail-message from job from_line to_line subject_line =
    let (subject, body) = render_template job in
    let mime : String = "MIME-Version: 1.0\r\nContent-Type: text/html; charset=\"UTF-8\"\r\n\r\n" in
    let on_subject : String = str_append subject (str_append (str_append "\r\n" mime) body) in
    let on_to : String = str_append job.to (str_append "\r\nSubject: " on_subject) in
    field "F" "rom: " from "To: " on_to refl from_line
    ∙ ap (in_front (str_append "From: " from)) (
        field "T" "o: " job.to "Subject: " on_subject refl to_line
        ∙ ap (in_front (str_append "To: " job.to)) (
            field "S" "ubject: " subject mime body refl subject_line
            ∙ ap (in_front (str_append "Subject: " subject)) (mime_header body)))
