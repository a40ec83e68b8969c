-- ===== src/Send/Blocks.antt =====
-- The blocks of a file that SendSession::sendFile sends.
use lan_send.Base.{ℕ, ◌*◌, ◌<◌, false, ◌≡◌, refl, [], ◌∷◌, length, is_nil, arith}
use lan_send.Message.{Bytes}
use lan_send.Disk.Blocks.{block_at, length-block_at}

not_nil : (xs : Bytes) → 0 < length xs → is_nil xs ≡ false
not_nil [] h = absurd (omega arith)
not_nil (x ∷ xs) h = refl

pub block_nonempty :
    (content : Bytes) (k i : ℕ)
    → 0 < k
    → i * k < length content
    → is_nil (block_at content k i) ≡ false
block_nonempty content k i positive inside =
    let long : 0 < length (block_at content k i) =
      omega (arith, length-block_at content k i, positive, inside) in
    not_nil (block_at content k i) long
