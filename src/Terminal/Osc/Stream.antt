-- ===== src/Terminal/Osc/Stream.antt =====
-- Feeding in pieces (internal/terminal/osc.go), and what holds of the scanner between two bytes.
use mathlib.Core.List.{append_assoc}
use roambench.Base.{
  ℕ, suc, ◌+◌, ◌≤◌, ◌≡◌, refl, false, ◌&&◌, List, [], ◌∷◌, ◌++◌, arith, if◌then◌else◌,
  length-append, length,
}
use roambench.Base.Text.{Text}
use roambench.Terminal.Osc.{Notification, Scanner, buf_cap, close_osc, feed_byte, feed}

abbrev pub Fed : Type 0
Fed = Text × List Notification × Scanner

-- What feeding more data after this result gives.
abbrev pub then_feed : Fed → Text → Fed
then_feed (p, ns, s) more = let (q, ms, s') = feed s more in (p ++ q, ns ++ ms, s')

-- Feeding two pieces one after the other is feeding them together.
pub feed-append : (s : Scanner) (a b : Text) → feed s (a ++ b) ≡ then_feed (feed s a) b
unfolding feed
feed-append s [] b = refl
feed-append s (x ∷ a) b =
    let (p, ns, s') = feed_byte s x in
    let (q, ms, s'') = feed s' a in
    let (r, ks, s3) = feed s'' b in simp (feed-append s' a b, append_assoc)

-- What holds of the scanner between two bytes: the buffer is within its cap, and it is not at once
-- behind an ESC and inside a sequence.
pub record IsValid (s : Scanner) : Type 0 where
  pub within : length s.buf ≤ buf_cap
  pub one_mode : (s.in_esc && s.in_osc) ≡ false

length-snoc : (b : ℕ) (buf : Text) → length (buf ++ b ∷ []) ≡ suc (length buf)
length-snoc b buf = omega (arith, length-append buf (b ∷ []))

feed_byte-IsValid : (s : Scanner) (b : ℕ) → IsValid s → IsValid (feed_byte s b).2
unfolding feed_byte close_osc
feed_byte-IsValid s b v = ground (arith, length-snoc b s.buf)

-- Whatever is fed, the buffer never grows past its cap.
pub feed-IsValid : (s : Scanner) (input : Text) → IsValid s → IsValid (feed s input).2
unfolding feed
feed-IsValid s [] v = v
feed-IsValid s (b ∷ bs) v = feed-IsValid (feed_byte s b).2 bs (feed_byte-IsValid s b v)

-- The byte that the scanner holds back: an ESC whose next byte has not come.
abbrev pub held : Scanner → ℕ
held s = if s.in_esc then 1 else 0

feed_byte-length :
    (s : Scanner) (b : ℕ)
    → IsValid s
    → length (feed_byte s b).0 + held (feed_byte s b).2 ≤ held s + 1
unfolding feed_byte close_osc
feed_byte-length s b v = ground arith

-- The scanner invents no bytes: what passed through and what is held back is no more than what came.
pub length-feed :
    (s : Scanner) (input : Text)
    → IsValid s
    → length (feed s input).0 + held (feed s input).2 ≤ held s + length input
unfolding feed
length-feed s [] v = omega arith
length-feed s (b ∷ bs) v =
    let s' = (feed_byte s b).2 in
    omega (
      arith,
      feed_byte-length s b v,
      length-feed s' bs (feed_byte-IsValid s b v),
      length-append (feed_byte s b).0 (feed s' bs).0,
    )
