-- ===== src/Receive/Chunk/Next.antt =====
-- ReceiveFileContext::received_chunks, where chunks arrive one after another.
use lan_send.Base.{ℕ, ◌+◌, false, ◌≡◌, refl, List, [], ◌∷◌, length, arith}
use lan_send.Receive.Chunk.{contains, insert}
use lan_send.Receive.Chunk.Indexes.{AllBelow}

AllBelow-weaken : (n : ℕ) (is : List ℕ) → AllBelow n is → AllBelow (n + 1) is
AllBelow-weaken n [] h = tt
AllBelow-weaken n (i ∷ is) h = (omega (arith, h.0), AllBelow-weaken n is h.1)

absent : (n : ℕ) (is : List ℕ) → AllBelow n is → contains n is ≡ false
unfolding contains
absent n [] h = refl
absent n (i ∷ is) h = ground (arith, absent n is h.1)

pub insert-next :
    (n : ℕ) (is : List ℕ)
    → AllBelow n is
    → AllBelow (n + 1) (insert n is) × (length (insert n is) ≡ length is + 1)
unfolding insert
insert-next n is h = rw (absent n is h) ((omega arith, AllBelow-weaken n is h), omega arith)
