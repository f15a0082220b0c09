-- ===== src/Terminal/Osc/Overflow.antt =====
-- A sequence that does not fit the buffer.
use mathlib.Core.List.{append_assoc}
use roambench.Base.{
  ℕ, ◌≤◌, ◌≡◌, ◌≢◌, refl, sym, ap, ◌∙◌, false, [], ◌∷◌, ◌++◌, arith, All-append, length, All,
}
use roambench.Base.Text.{Text}
use roambench.Base.{take, drop, take-append-drop, length-take, All-take, All-drop, All-map}
use roambench.Terminal.Osc.{bel, esc, backslash, buf_cap, ends_in_esc, feed_byte, feed}
use roambench.Terminal.Osc.Collect.{IsContent, inside, feed-content, content_calm}
use roambench.Terminal.Osc.Stream.{feed-append}
use roambench.Terminal.Osc.Notify.{idle, feed_open}

feed_byte-full :
    (buf : Text) (b : ℕ)
    → length buf ≡ buf_cap
    → ends_in_esc buf ≡ false
    → b ≢ bel
    → feed_byte (inside buf) b ≡ ([], [], inside buf)
unfolding feed_byte
feed_byte-full buf b l e n = ground arith

-- A full buffer that does not end in ESC takes no ESC any more, so only BEL can end the sequence.
pub feed-full :
    (buf more : Text)
    → length buf ≡ buf_cap
    → ends_in_esc buf ≡ false
    → All (λ b. b ≢ bel) more
    → feed (inside buf) more ≡ ([], [], inside buf)
unfolding feed
feed-full buf [] l e h = refl
feed-full buf (b ∷ more) l e h = rw (feed_byte-full buf b l e h.0, feed-full buf more l e h.1)

-- Once a sequence has as much content as the buffer holds, ESC with a backslash no longer ends it:
-- whatever is printed after it, up to the next BEL, neither passes through nor is reported, and the
-- scanner stays inside the sequence.
pub feed-overlong :
    (buf content rest : Text)
    → IsContent content
    → buf_cap ≤ length content
    → All (λ b. b ≢ bel) rest
    → feed (idle buf) (esc ∷ b']' ∷ content ++ esc ∷ backslash ∷ rest)
      ≡ ([], [], inside (take buf_cap content))
feed-overlong buf content rest c l r =
    let front = take buf_cap content in
    let back = drop buf_cap content in
    let tail = esc ∷ backslash ∷ rest in
    let Q = λ (b : ℕ). b ≢ bel in
    let fits : length front ≡ buf_cap = length-take buf_cap content l in
    let front-c : IsContent front = All-take _ buf_cap content c in
    let back-c : IsContent back = All-drop _ buf_cap content c in
    let quiet : All Q (back ++ esc ∷ backslash ∷ rest) =
      All-append Q back (esc ∷ backslash ∷ rest) (All-map _ Q back (λ b p. p.0) back-c)
        (omega arith, (omega arith, r)) in
    let split : content ++ tail ≡ front ++ (back ++ tail) =
      ap (λ z. z ++ tail) (sym (take-append-drop buf_cap content)) ∙ append_assoc front back tail in
    feed_open buf (content ++ tail)
    ∙ ap (feed (inside [])) split
    ∙ rw (
      feed-append (inside []) front (back ++ tail),
      feed-content [] front front-c (content_calm [] tt) (omega (arith, fits)),
      feed-full front (back ++ tail) fits (content_calm front front-c) quiet,
    )
