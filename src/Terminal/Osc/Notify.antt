-- ===== src/Terminal/Osc/Notify.antt =====
-- From a notification as a program prints it to the notification that the scanner reports.
use mathlib.Core.List.{append-nil}
use roambench.Base.{
  ℕ, ◌+◌, ◌≤◌, ◌<◌, ◌≡◌, ◌≢◌, refl, false, Option, some, none, List, [], ◌∷◌, ◌++◌, arith, length,
  All, lt→ltb,
}
use roambench.Base.Text.{Text, codes, trim_space}
use roambench.Base.Text.{has_prefix, cut}
use roambench.Terminal.Osc.{
  Notification, Scanner, bel, esc, backslash, buf_cap, parse_osc, ends_in_esc, close_osc, feed_byte,
  feed,
}
use roambench.Terminal.Osc.Collect.{
  IsContent, inside, ends_in_esc-snoc, drop_last-snoc, feed-content,
}
use roambench.Terminal.Osc.Stream.{Fed, feed-append}

-- The scanner outside any sequence; what the buffer still holds does not matter.
abbrev pub idle : Text → Scanner
idle buf = record { buf = buf; in_esc = false; in_osc = false }

abbrev pub report : Option Notification → List Notification
report o = elim o [ some n ↦ n ∷ [] | none ↦ [] ]

-- What a complete sequence reports.
abbrev pub reported : Text → List Notification
reported content = report (parse_osc content)

-- A result with notifications put in front of it.
abbrev pub notified : List Notification → Fed → Fed
notified ns (p, ms, s) = (p, ns ++ ms, s)

-- The two spellings of the end of a sequence: BEL, and ESC with a backslash.
pub data Terminator : Type 0 where
  by_bel by_st : Terminator

abbrev pub ending : Terminator → Text
ending by_bel = bel ∷ []
ending by_st = esc ∷ backslash ∷ []

-- The room that the buffer needs besides the content: the ESC of the longer ending goes through it.
abbrev pub spare : Terminator → ℕ
spare by_bel = 0
spare by_st = 1

pub feed_open : (buf rest : Text) → feed (idle buf) (esc ∷ b']' ∷ rest) ≡ feed (inside []) rest
unfolding feed feed_byte
feed_open buf rest = refl

feed_byte-bel : (content : Text) → feed_byte (inside content) bel ≡ ([], reported content, idle [])
unfolding feed_byte close_osc
feed_byte-bel content = refl

feed-st :
    (content : Text)
    → IsContent content
    → length content < buf_cap
    → feed (inside content) (esc ∷ backslash ∷ []) ≡ ([], reported content, idle [])
unfolding feed feed_byte close_osc
feed-st content c l = simp (
  lt→ltb (length content) buf_cap l,
  ends_in_esc-snoc content esc,
  drop_last-snoc content esc,
  append-nil,
)

feed-ending :
    (e : Terminator) (content : Text)
    → IsContent content
    → length content + spare e ≤ buf_cap
    → feed (inside content) (ending e) ≡ ([], reported content, idle [])
unfolding feed
feed-ending by_bel content c l = simp (feed_byte-bel content, append-nil)
feed-ending by_st content c l = feed-st content c (omega arith)

-- A sequence whose content fits the buffer leaves no byte in the output, notifies once if its content
-- is a notification and not at all otherwise, and leaves the scanner outside any sequence for the
-- bytes that follow, with either ending.
pub feed-sequence :
    (e : Terminator) (buf content rest : Text)
    → IsContent content
    → length content + spare e ≤ buf_cap
    → feed (idle buf) (esc ∷ b']' ∷ content ++ (ending e ++ rest))
      ≡ notified (reported content) (feed (idle []) rest)
unfolding ends_in_esc
feed-sequence e buf content rest c l = rw (
  feed_open buf (content ++ (ending e ++ rest)),
  feed-append (inside []) content (ending e ++ rest),
  feed-content [] content c refl (omega arith),
  feed-append (inside content) (ending e) rest,
  feed-ending e content c l,
)

-- What the programs print for each kind of notification.
abbrev pub osc9 : Text → Text
osc9 body = codes "9;" ++ body

abbrev pub osc777 : Text → Text → Text
osc777 title body = codes "777;notify;" ++ (title ++ b';' ∷ body)

pub parse-osc9 :
    (body : Text)
    → parse_osc (osc9 body) ≡ some (record { code = 9; title = trim_space body; body = [] })
unfolding parse_osc has_prefix trim_space
parse-osc9 body = refl

cut-append :
    (sep : ℕ) (before after : Text)
    → All (λ c. c ≢ sep) before
    → cut sep (before ++ sep ∷ after) ≡ (before, after)
unfolding cut
cut-append sep [] after h = ground arith
cut-append sep (c ∷ before) after h =
    let ih = cut-append sep before after h.1 in ground (arith, h.0)

pub parse-osc777 :
    (title body : Text)
    → All (λ c. c ≢ b';') title
    → parse_osc (osc777 title body)
      ≡ some (record { code = 777; title = trim_space title; body = trim_space body })
unfolding parse_osc has_prefix trim_space
parse-osc777 title body h = rw (cut-append b';' title body h)
