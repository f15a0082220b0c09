-- ===== src/Terminal/Osc/Tests.antt =====
-- Small sessions of terminal output.
use roambench.Base.{ℕ, zero, suc, ◌≡◌, ◌≢◌, refl, ap, some, List, [], ◌∷◌, ◌++◌, arith, length, All}
use roambench.Base.Text.{Text, codes, trim_space}
use roambench.Terminal.Osc.{
  new_scanner, bel, esc, backslash, buf_cap, parse_osc, close_osc, feed_byte, feed,
}
use roambench.Terminal.Osc.Stream.{IsValid, feed-IsValid}
use roambench.Terminal.Osc.Notify.{idle, reported, notified, Terminator, ending, feed-sequence}
use roambench.Terminal.Osc.Session.{Item, output, plain, messages, feed-output}
use roambench.Terminal.Osc.Overflow.{feed-overlong}
use roambench.Terminal.Osc.Collect.{inside}
use roambench.Base.{take, replicate}

-- A build that reports its end, then a prompt.
abbrev build : List Item
build =
    Item.text (codes "make\n")
    ∷ Item.titled Terminator.by_bel (codes "Build ") (codes " done")
    ∷ Item.text (codes "$ ")
    ∷ Item.short Terminator.by_st (codes "ready")
    ∷ []

feed-output_example : feed new_scanner (output build) ≡ (plain build, messages build, new_scanner)
feed-output_example = feed-output build (omega arith)

-- The read ends inside the sequence and the next one begins with its last byte.
new_scanner-IsValid : IsValid new_scanner
new_scanner-IsValid = ground arith

feed-IsValid_example : IsValid (feed new_scanner (esc ∷ b']' ∷ codes "9;hi")).2
feed-IsValid_example = feed-IsValid new_scanner (esc ∷ b']' ∷ codes "9;hi") new_scanner-IsValid

-- The sequence that sets a window title is no notification: it is dropped, and reported by nothing.
title_dropped :
    feed new_scanner (esc ∷ b']' ∷ codes "0;vim" ++ bel ∷ codes "x") ≡ (codes "x", [], new_scanner)
unfolding feed feed_byte close_osc parse_osc
title_dropped = refl

feed-sequence_example :
    feed (idle []) (esc ∷ b']' ∷ codes "0;vim" ++ (ending Terminator.by_bel ++ codes "x"))
    ≡ notified (reported (codes "0;vim")) (feed (idle []) (codes "x"))
feed-sequence_example =
    feed-sequence Terminator.by_bel [] (codes "0;vim") (codes "x") (omega arith) (omega arith)

-- A kitty sequence: the payload stands behind the last colon.
kitty :
    parse_osc (codes "99;i=1:d=0:p=body: hello ")
    ≡ some (record { code = 99; title = []; body = codes "hello" })
unfolding parse_osc trim_space
kitty = refl

-- A sequence of 1024 bytes.
abbrev long_line : Text
long_line = replicate 1024 b'x'

length-replicate : (n : ℕ) (c : ℕ) → length (replicate n c) ≡ n
length-replicate zero c = refl
length-replicate (suc n) c = ap suc (length-replicate n c)

All-replicate : (P : ℕ → Type 0) (n c : ℕ) → P c → All P (replicate n c)
All-replicate P zero c h = tt
All-replicate P (suc n) c h = (h, All-replicate P n c h)

feed-overlong_example :
    feed (idle []) (esc ∷ b']' ∷ long_line ++ esc ∷ backslash ∷ codes "lost")
    ≡ ([], [], inside (take buf_cap long_line))
feed-overlong_example =
    feed-overlong [] long_line (codes "lost")
      (All-replicate (λ b. (b ≢ bel) × (b ≢ esc)) 1024 b'x' (omega arith, omega arith))
      (omega (arith, length-replicate 1024 b'x')) (omega arith)
