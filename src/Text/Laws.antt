-- ===== src/Text/Laws.antt =====
-- The pieces of a split text, and the numbers that texts stand for.
use tailcat_quic.Base.{ℕ, ◌<◌, ◌≡◌, Option, none, some, List, [], ◌∷◌, arith}
use tailcat_quic.Text.{decimal, below, parse_uint16}

pub decimal_bound : (s : List ℕ) {n : ℕ} → parse_uint16 s ≡ some n → n < 65536
unfolding parse_uint16
decimal_bound [] h = ground arith
decimal_bound (c ∷ s) h = below_bound (decimal 0 (c ∷ s)) h
  where
    below_bound : (o : Option ℕ) {n : ℕ} → below 65536 o ≡ some n → n < 65536
    below_bound none e = ground arith
    below_bound (some m) e = ground arith
