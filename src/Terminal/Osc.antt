-- ===== src/Terminal/Osc.antt =====
-- The streaming scanner for terminal notifications: internal/terminal/osc.go. Data are bytes. The time
-- stamp and the session id of a notification are left out: the scanner copies both in and reads
-- neither.
pub mod Stream
mod Collect
pub mod Notify
pub mod Session
pub mod Overflow
mod Tests
use roambench.Base.{
  ℕ, ◌+◌, ◌-◌, Bool, true, false, ◌&&◌, ◌||◌, not, Option, none, some, List, [], ◌∷◌, ◌++◌, ltb,
  ◌==◌, if◌then◌else◌, length, drop,
}
use roambench.Base.Text.{Text, codes, is_empty, trim_space, has_prefix, cut, after_last}

-- OSCNotification; no sequence sets a subtitle.
pub record Notification : Type 0 where
  pub code : ℕ
  pub title : Text
  pub body : Text

-- OSCScanner.
pub record Scanner : Type 0 where
  pub buf : Text
  pub in_esc : Bool
  pub in_osc : Bool

abbrev pub new_scanner : Scanner
new_scanner = record { buf = []; in_esc = false; in_osc = false }

abbrev pub bel : ℕ
bel = 0x07

abbrev pub esc : ℕ
esc = 0x1b

abbrev pub backslash : ℕ
backslash = 0x5c

-- The cap on the buffer.
abbrev pub buf_cap : ℕ
buf_cap = 1024

-- `parseOSC`.
parse_kitty : Text → Option Notification
unfolding after_last
parse_kitty rest = elim (after_last b':' rest) [
  | none ↦ none
  | some t ↦
      let payload = trim_space t in
      if is_empty payload then none else some (record { code = 99; title = []; body = payload })
]

unfoldable pub parse_osc : Text → Option Notification
unfolding parse_kitty has_prefix
parse_osc content =
    if has_prefix (codes "9;") content
    then some (record { code = 9; title = trim_space (drop 2 content); body = [] })
    else if has_prefix (codes "777;notify;") content
    then (let (title, body) = cut b';' (drop 11 content) in
        some (record { code = 777; title = trim_space title; body = trim_space body }))
    else if has_prefix (codes "99;") content
    then parse_kitty (drop 3 content)
    else none

-- `s.buf[len(s.buf)-1] == 0x1b`, false for an empty buffer.
unfoldable pub ends_in_esc : Text → Bool
ends_in_esc [] = false
ends_in_esc (b ∷ []) = b == esc
ends_in_esc (b ∷ c ∷ s) = ends_in_esc (c ∷ s)

-- `s.buf[:len(s.buf)-1]`.
unfoldable pub drop_last : Text → Text
drop_last [] = []
drop_last (b ∷ []) = []
drop_last (b ∷ c ∷ s) = b ∷ drop_last (c ∷ s)

-- The end of a sequence: parse the content, and leave the sequence.
unfoldable pub close_osc : Scanner → Text → Text × List Notification × Scanner
close_osc s content = (
  [],
  elim (parse_osc content) [ some n ↦ n ∷ [] | none ↦ [] ],
  record s { buf = []; in_osc = false },
)

-- One byte: what passes through, what is notified, and the scanner after it.
unfoldable pub feed_byte : Scanner → ℕ → Text × List Notification × Scanner
feed_byte s b =
    if s.in_osc
    then (if b == bel
        then close_osc s s.buf
        else if b == backslash && ends_in_esc s.buf
        then close_osc s (drop_last s.buf)
        else (
          [],
          [],
          record s { buf = if ltb (length s.buf) buf_cap then s.buf ++ b ∷ [] else s.buf },
        ))
    else if s.in_esc
    then (if b == b']'
        then ([], [], record s { buf = []; in_esc = false; in_osc = true })
        else (esc ∷ b ∷ [], [], record s { in_esc = false }))
    else if b == esc
    then ([], [], record s { in_esc = true })
    else (b ∷ [], [], s)

-- `Feed`, the loop over the data.
unfoldable pub feed : Scanner → Text → Text × List Notification × Scanner
feed s [] = ([], [], s)
feed s (b ∷ bs) =
    let (p, ns, s') = feed_byte s b in let (q, ms, s'') = feed s' bs in (p ++ q, ns ++ ms, s'')
