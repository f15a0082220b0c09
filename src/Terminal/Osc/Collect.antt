-- ===== src/Terminal/Osc/Collect.antt =====
-- How the buffer of a sequence fills.
use mathlib.Core.List.{append_assoc, append-nil}
use roambench.Base.{
  ℕ, ◌+◌, ◌≤◌, ◌<◌, ◌≡◌, ◌≢◌, refl, ap, true, false, [], ◌∷◌, ◌++◌, arith, length-append, length,
  All, ◌==◌,
}
use roambench.Base.Text.{Text}
use roambench.Terminal.Osc.{Scanner, bel, esc, buf_cap, ends_in_esc, drop_last, feed_byte, feed}

-- Content with no BEL and no ESC: no byte of it ends a sequence.
abbrev pub IsContent : Text → Type 0
IsContent = All (λ b. (b ≢ bel) × (b ≢ esc))

-- The scanner inside a sequence of which `buf` has been read.
abbrev pub inside : Text → Scanner
inside buf = record { buf = buf; in_esc = false; in_osc = true }

pub ends_in_esc-snoc : (buf : Text) (b : ℕ) → ends_in_esc (buf ++ b ∷ []) ≡ (b == esc)
unfolding ends_in_esc
ends_in_esc-snoc [] b = refl
ends_in_esc-snoc (x ∷ []) b = refl
ends_in_esc-snoc (x ∷ y ∷ buf) b = ends_in_esc-snoc (y ∷ buf) b

pub drop_last-snoc : (buf : Text) (b : ℕ) → drop_last (buf ++ b ∷ []) ≡ buf
unfolding drop_last
drop_last-snoc [] b = refl
drop_last-snoc (x ∷ []) b = refl
drop_last-snoc (x ∷ y ∷ buf) b = ap (λ z. x ∷ z) (drop_last-snoc (y ∷ buf) b)

feed_byte-content :
    (buf : Text) (b : ℕ)
    → b ≢ bel
    → ends_in_esc buf ≡ false
    → length buf < buf_cap
    → feed_byte (inside buf) b ≡ ([], [], inside (buf ++ b ∷ []))
unfolding feed_byte
feed_byte-content buf b nb ne l = ground arith

-- Content that fits is collected whole; nothing comes out.
pub feed-content :
    (buf content : Text)
    → IsContent content
    → ends_in_esc buf ≡ false
    → length buf + length content ≤ buf_cap
    → feed (inside buf) content ≡ ([], [], inside (buf ++ content))
unfolding feed
feed-content buf [] c e l = rw append-nil
feed-content buf (b ∷ content) c e l =
    let buf' = buf ++ b ∷ [] in
    let calm : ends_in_esc buf' ≡ false = rw (ends_in_esc-snoc buf b) (ground (arith, c.0.1)) in
    let fits : length buf' + length content ≤ buf_cap = omega (arith, length-append buf (b ∷ [])) in
    rw (feed_byte-content buf b c.0.0 e (omega arith), feed-content buf' content c.1 calm fits)
      (rw append_assoc)

-- The last byte of content is no ESC.
pub content_calm : (content : Text) → IsContent content → ends_in_esc content ≡ false
unfolding ends_in_esc
content_calm [] c = refl
content_calm (b ∷ []) c = ground (arith, c.0.1)
content_calm (b ∷ d ∷ content) c = content_calm (d ∷ content) c.1
