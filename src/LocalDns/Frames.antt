-- ===== src/LocalDns/Frames.antt =====
-- The framing of the local DNS server: it answers every query of a stream, in order.
use tailcat_quic.Base.{
  ltb, not_rejected, some-eq, length, drop, length-append, length-drop, take-length_append,
  drop-length_append, All, ℕ, zero, suc, ◌+◌, ◌*◌, ◌/◌, ◌%◌, ◌≤◌, ◌<◌, ◌≡◌, refl, ap, ◌∙◌, Option,
  none, some, List, [], ◌∷◌, ◌++◌, append_assoc, arith,
}
use tailcat_quic.LocalDns.{
  serve_query, serve_round, Messages, frame, answer, read_query, serve_loop, serve,
}

read_query-frame :
    (q rest : List ℕ) → length q < 65536 → read_query (frame q ++ rest) ≡ some (q, rest)
unfolding read_query frame
read_query-frame q rest h =
    let n : length q % 65536 / 256 * 256 + length q % 65536 % 256 ≡ length q = omega arith in
    rw (n, take-length_append (length q) q rest refl, drop-length_append (length q) q rest refl)
      (ground (arith, length-append q rest))

length-frame : (q : List ℕ) → length (frame q) ≡ length q + 2
unfolding frame
length-frame q = omega arith

-- What a frame leaves is shorter.
read_query-shorter :
    (s q rest : List ℕ) → read_query s ≡ some (q, rest) → length rest + 2 ≤ length s
unfolding read_query
read_query-shorter [] q rest e = absurd (cc)
read_query-shorter (h ∷ []) q rest e = absurd (cc)
read_query-shorter (h ∷ (l ∷ s)) q rest e =
    let passed = not_rejected (ltb (length s) (h * 256 + l)) _ e in
    let cut : drop (h * 256 + l) s ≡ rest = ap (λ (p : List ℕ × List ℕ). p.1) (some-eq passed.1) in
    omega (arith, length-drop (h * 256 + l) s, ap (length {A = ℕ}) cut)

abbrev pub stream : List (List ℕ) → List ℕ
stream [] = []
stream (q ∷ qs) = frame q ++ stream qs

abbrev pub respond_then : Option (List ℕ) → List ℕ → List ℕ
respond_then none x = []
respond_then (some r) x = r ++ x

module _ (dns : Messages) where
  -- The responses to some queries, up to the first that has none.
  abbrev pub responses : List (List ℕ) → List ℕ
  responses [] = []
  responses (q ∷ qs) = respond_then (answer dns q) (responses qs)

  query-same :
      (k m : List ℕ → List ℕ) (rest : List ℕ) (o : Option (List ℕ))
      → k rest ≡ m rest
      → serve_query dns k rest o ≡ serve_query dns m rest o
  unfolding serve_query
  query-same k m rest none e = refl
  query-same k m rest (some r) e = ap (◌++◌ r) e

  round-same :
      (k m : List ℕ → List ℕ) (o : Option (List ℕ × List ℕ))
      → ((q rest : List ℕ) → o ≡ some (q, rest) → k rest ≡ m rest)
      → serve_round dns k o ≡ serve_round dns m o
  unfolding serve_round
  round-same k m none h = refl
  round-same k m (some (q, rest)) h = query-same k m rest (answer dns q) (h q rest refl)

  answered-responses :
      (k : List ℕ → List ℕ) (rest x : List ℕ) (o : Option (List ℕ))
      → k rest ≡ x
      → serve_query dns k rest o ≡ respond_then o x
  unfolding serve_query
  answered-responses k rest x none e = refl
  answered-responses k rest x (some r) e = ap (◌++◌ r) e

  -- Any number of rounds above the length of the stream gives the same.
  serve_loop_enough :
      (f g : ℕ) (s : List ℕ) → length s < f → length s < g → serve_loop dns f s ≡ serve_loop dns g s
  unfolding serve_loop
  serve_loop_enough zero g s h k = absurd (omega arith)
  serve_loop_enough (suc f) zero s h k = absurd (omega arith)
  serve_loop_enough (suc f) (suc g) s h k =
      round-same (serve_loop dns f) (serve_loop dns g) (read_query s) (λ q rest e.
        serve_loop_enough f g rest (omega (arith, read_query-shorter s q rest e))
          (omega (arith, read_query-shorter s q rest e)))

  module _ (tail : List ℕ) (partial : read_query tail ≡ none) where
    serve_loop-stream :
        (qs : List (List ℕ)) (f : ℕ)
        → All (λ q. length q < 65536) qs
        → length (stream qs ++ tail) < f
        → serve_loop dns f (stream qs ++ tail) ≡ responses qs
    unfolding serve_loop serve_round
    serve_loop-stream [] zero h l = absurd (omega arith)
    serve_loop-stream [] (suc f) h l = rw partial refl
    serve_loop-stream (q ∷ qs) zero h l = absurd (omega arith)
    serve_loop-stream (q ∷ qs) (suc f) h l =
        ap (λ s. serve_round dns (serve_loop dns f) (read_query s))
          (append_assoc (frame q) (stream qs) tail)
        ∙ ap (serve_round dns (serve_loop dns f)) (read_query-frame q (stream qs ++ tail) h.0)
        ∙ answered-responses (serve_loop dns f) (stream qs ++ tail) (responses qs) (answer dns q) (
            serve_loop-stream qs f h.1 (
              omega (
                arith,
                ap (length {A = ℕ}) (append_assoc (frame q) (stream qs) tail),
                length-append (frame q) (stream qs ++ tail),
                length-frame q,
              )))

  -- A stream of whole queries and of bytes that are no whole query is answered query by query in
  -- order, up to the first without an answer; serve then stops, and no more rounds would write more.
  pub serve_answers :
      (qs : List (List ℕ)) (tail : List ℕ) (rounds : ℕ)
      → All (λ q. length q < 65536) qs
      → read_query tail ≡ none
      → length (stream qs ++ tail) < rounds
      → (serve dns (stream qs ++ tail) ≡ responses qs)
        × (serve_loop dns rounds (stream qs ++ tail) ≡ serve dns (stream qs ++ tail))
  unfolding serve
  serve_answers qs tail rounds h t l = (
    serve_loop-stream tail t qs (length (stream qs ++ tail) + 1) h (omega arith),
    serve_loop_enough rounds (length (stream qs ++ tail) + 1) (stream qs ++ tail) l (omega arith),
  )
