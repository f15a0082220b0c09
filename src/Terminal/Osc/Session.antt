-- ===== src/Terminal/Osc/Session.antt =====
-- A whole session: plain output with notifications in between.
use mathlib.Core.List.{append_assoc, append-nil}
use roambench.Base.{
  ℕ, ◌+◌, ◌≤◌, ◌≡◌, ◌≢◌, refl, ap, ◌∙◌, List, [], ◌∷◌, ◌++◌, arith, length-append, All-append,
  length, All,
}
use roambench.Base.Text.{Text, codes, trim_space}
use roambench.Terminal.Osc.{Notification, new_scanner, bel, esc, buf_cap, feed_byte, feed}
use roambench.Terminal.Osc.Collect.{IsContent}
use roambench.Terminal.Osc.Stream.{feed-append}
use roambench.Terminal.Osc.Notify.{
  idle, report, notified, Terminator, ending, spare, feed-sequence, osc9, osc777, parse-osc9,
  parse-osc777,
}

-- What a program writes: plain output, a notification with a body (OSC 9), or one with a title and a
-- body (OSC 777).
pub data Item : Type 0 where
  text : Text → Item
  short : Terminator → Text → Item
  titled : Terminator → Text → Text → Item

abbrev pub printed : Item → Text
printed (text s) = s
printed (short e body) = esc ∷ b']' ∷ osc9 body ++ ending e
printed (titled e title body) = esc ∷ b']' ∷ osc777 title body ++ ending e

abbrev pub output : List Item → Text
output [] = []
output (i ∷ is) = printed i ++ output is

-- What should pass through.
abbrev pub plain : List Item → Text
plain [] = []
plain (text s ∷ is) = s ++ plain is
plain (short e body ∷ is) = plain is
plain (titled e title body ∷ is) = plain is

-- What should be reported.
abbrev pub messages : List Item → List Notification
messages [] = []
messages (text s ∷ is) = messages is
messages (short e body ∷ is) = record { code = 9; title = trim_space body; body = [] } ∷ messages is
messages (titled e title body ∷ is) =
    record { code = 777; title = trim_space title; body = trim_space body } ∷ messages is

-- Plain output has no ESC; a notification has no ESC and no BEL, no semicolon in its title, and its
-- content has at most 1023 bytes.
abbrev pub IsPrintable : Item → Type 0
IsPrintable (text s) = All (λ b. b ≢ esc) s
IsPrintable (short e body) = IsContent body × (length body + 3 ≤ buf_cap)
IsPrintable (titled e title body) =
    IsContent title
    × IsContent body
    × All (λ b. b ≢ b';') title
    × (length title + length body + 13 ≤ buf_cap)

feed-text : (s : Text) → All (λ b. b ≢ esc) s → feed (idle []) s ≡ (s, [], idle [])
unfolding feed feed_byte
feed-text [] h = refl
feed-text (b ∷ s) h = ground (arith, feed-text s h.1, h.0)

spare-le : (e : Terminator) → spare e ≤ 1
spare-le Terminator.by_bel = omega arith
spare-le Terminator.by_st = omega arith

osc9-IsContent : (body : Text) → IsContent body → IsContent (osc9 body)
osc9-IsContent body b =
    let head : IsContent (codes "9;") = omega arith in
    All-append (λ c. (c ≢ bel) × (c ≢ esc)) (codes "9;") body head b

osc777-IsContent :
    (title body : Text) → IsContent title → IsContent body → IsContent (osc777 title body)
osc777-IsContent title body t b =
    let P = λ (c : ℕ). (c ≢ bel) × (c ≢ esc) in
    let head : IsContent (codes "777;notify;") = omega arith in
    let sep : P b';' = omega arith in
    All-append P (codes "777;notify;") (title ++ b';' ∷ body) head
      (All-append P title (b';' ∷ body) t (sep, b))

feed-item :
    (i : Item) (rest : Text)
    → IsPrintable i
    → feed (idle []) (printed i ++ rest)
      ≡ (let (p, ns, s) = feed (idle []) rest in (plain (i ∷ []) ++ p, messages (i ∷ []) ++ ns, s))
feed-item (text s) rest h = rw (feed-append (idle []) s rest, feed-text s h) (simp append-nil)
feed-item (short e body) rest h =
    let fits : length (osc9 body) + spare e ≤ buf_cap = omega (arith, spare-le e) in
    let found = feed-sequence e [] (osc9 body) rest (osc9-IsContent body h.0) fits in
    rw append_assoc (found ∙ ap (λ o. notified (report o) (feed (idle []) rest)) (parse-osc9 body))
feed-item (titled e title body) rest h =
    let fits : length (osc777 title body) + spare e ≤ buf_cap =
      omega (arith, spare-le e, length-append title (b';' ∷ body)) in
    let content = osc777-IsContent title body h.0 h.1 in
    let found = feed-sequence e [] (osc777 title body) rest content fits in
    rw append_assoc
      (found ∙ ap (λ o. notified (report o) (feed (idle []) rest)) (parse-osc777 title body h.2))

-- A session of plain output and of notifications of the kinds OSC 9 and OSC 777, from a new scanner, where
-- plain output has no ESC, titles and bodies have no ESC and no BEL, titles have no semicolon, and
-- the content of each notification, with its code and separators, has at most 1023 bytes: exactly
-- the plain output passes through, exactly the notifications are reported, both in order and with
-- their texts trimmed, and the scanner is as at the start.
pub feed-output :
    (is : List Item)
    → All IsPrintable is
    → feed new_scanner (output is) ≡ (plain is, messages is, new_scanner)
unfolding feed
feed-output [] h = refl
feed-output (text s ∷ is) h =
    rw (feed-item (text s) (output is) h.0, feed-output is h.1) (simp append-nil)
feed-output (short e body ∷ is) h =
    rw (feed-item (short e body) (output is) h.0, feed-output is h.1)
feed-output (titled e title body ∷ is) h =
    rw (feed-item (titled e title body) (output is) h.0, feed-output is h.1)
