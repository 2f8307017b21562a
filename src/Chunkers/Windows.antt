-- ===== src/Chunkers/Windows.antt =====
-- The windows of the token and character strategies of TinyCTX/modules/rag/chunkers.py.
use tiny_ctx.Base.{
  ℕ, zero, suc, ◌+◌, ◌-◌, ◌≤◌, ◌<◌, ◌≡◌, refl, ap, sym, subst, ◌∙◌, Bool, true, false, List, [],
  ◌∷◌, ◌++◌, Option, none, some, ◌==◌, nat_eq, if◌then◌else◌, ltb, leb, length, every, arith,
  append-nil,
}
use tiny_ctx.Tools.Values.{ℤ, pos, negsuc}
use tiny_ctx.Chunkers.{chunk_size, chunk_overlap, take, drop, slice, window_loop, windows}

-- An overlap is always shorter than its chunk.
chunk_overlap_less : (overlap size : ℤ) → chunk_overlap overlap size < chunk_size size
unfolding chunk_overlap chunk_size
chunk_overlap_less (pos m) (pos zero) = omega arith
chunk_overlap_less (pos m) (pos (suc k)) = ground arith
chunk_overlap_less (pos m) (negsuc k) = omega arith
chunk_overlap_less (negsuc m) (pos zero) = omega arith
chunk_overlap_less (negsuc m) (pos (suc k)) = omega arith
chunk_overlap_less (negsuc m) (negsuc k) = omega arith

module _ {A : Type 0} where
  length-take : (n : ℕ) (xs : List A) → length (take n xs) ≤ n
  unfolding take
  length-take zero xs = omega arith
  length-take (suc n) [] = omega arith
  length-take (suc n) (x ∷ xs) = let rest = length-take n xs in omega arith

  drop_all : (k : ℕ) (xs : List A) → length xs ≤ k → drop k xs ≡ []
  unfolding drop
  drop_all zero [] h = refl
  drop_all zero (x ∷ xs) h = ground arith
  drop_all (suc k) [] h = refl
  drop_all (suc k) (x ∷ xs) h = drop_all k xs (omega arith)

  drop-drop : (a b c : ℕ) (xs : List A) → b + a ≡ c → drop a (drop b xs) ≡ drop c xs
  unfolding drop
  drop-drop a zero c xs h = ap (λ k. drop k xs) (omega arith)
  drop-drop a (suc b) c [] h = drop_all a [] (omega arith) ∙ sym (drop_all c [] (omega arith))
  drop-drop a (suc b) zero (x ∷ xs) h = ground arith
  drop-drop a (suc b) (suc c) (x ∷ xs) h = drop-drop a b c xs (omega arith)

  -- What a prefix leaves of its own beginning, and what follows it.
  drop-take : (k m : ℕ) (xs : List A) → k ≤ m → drop k (take m xs) ++ drop m xs ≡ drop k xs
  unfolding drop take
  drop-take zero zero xs h = refl
  drop-take zero (suc m) [] h = refl
  drop-take zero (suc m) (x ∷ xs) h = ap (◌∷◌ x) (drop-take zero m xs (omega arith))
  drop-take (suc k) zero xs h = ground arith
  drop-take (suc k) (suc m) [] h = refl
  drop-take (suc k) (suc m) (x ∷ xs) h = drop-take k m xs (omega arith)

  take_all : (m : ℕ) (xs : List A) → length xs ≤ m → take m xs ≡ xs
  unfolding take
  take_all zero [] h = refl
  take_all zero (x ∷ xs) h = ground arith
  take_all (suc m) [] h = refl
  take_all (suc m) (x ∷ xs) h = ap (◌∷◌ x) (take_all m xs (omega arith))

  length-drop : (k : ℕ) (xs : List A) → length (drop k xs) ≡ length xs - k
  unfolding drop
  length-drop zero xs = omega arith
  length-drop (suc k) [] = omega arith
  length-drop (suc k) (x ∷ xs) = let rest = length-drop k xs in omega arith

  -- The windows put together again: each without its beginning, of which the first lacks k.
  unfoldable pub joined : ℕ → ℕ → List (List A) → List A
  joined k overlap [] = []
  joined k overlap (w ∷ ws) = drop k w ++ joined overlap overlap ws

  -- What the loop gives from a start on: windows that are no longer than the size and lose nothing.
  Cuts : ℕ → ℕ → List A → ℕ → Option (List (List A)) → Type 0
  Cuts size overlap xs start o =
      (ws : List (List A)) × ((o ≡ some ws)
        × ((every (λ w. leb (length w) size) ws ≡ true)
            × ((k : ℕ) → k ≤ overlap → joined k overlap ws ≡ drop (start + k) xs)))

  module _ (size overlap : ℕ) (xs : List A) (start : ℕ) where
    past-Cuts : length xs ≤ start → Cuts size overlap xs start (some [])
    unfolding Cuts joined every
    past-Cuts h = ([], (refl, (refl, λ k less. sym (drop_all (start + k) xs (omega arith)))))

    last-Cuts :
        length xs ≤ start + size
        → Cuts size overlap xs start (some (slice start (length xs) xs ∷ []))
    unfolding Cuts joined every slice
    last-Cuts h =
        let ys = drop start xs in
        let count = length-drop start xs in
        let whole : take (length xs - start) ys ≡ ys =
          take_all (length xs - start) ys (omega arith) in
        (
          take (length xs - start) ys ∷ [],
          (
            refl,
            (
              rw (whole) (ground arith),
              λ k less. rw (whole) (append-nil (drop k ys) ∙ drop-drop k start (start + k) xs refl),
            ),
          ),
        )

    next-Cuts :
        (rest : Option (List (List A)))
        → overlap < size
        → Cuts size overlap xs (start + (size - overlap)) rest
        → Cuts size overlap xs start
            (elim rest [ none ↦ none | some ws ↦ some (slice start (start + size) xs ∷ ws) ])
    unfolding Cuts joined every slice
    next-Cuts rest fits (ws, (given, (short, join))) =
        let ys = drop start xs in
        let width : start + size - start ≡ size = omega arith in
        let short' = length-take size ys in
        let first : leb (length (take size ys)) size ≡ true = ground arith in
        (
          take (start + size - start) ys ∷ ws,
          (
            rw (given) refl,
            (
              rw (width, first) short,
              λ k less.
                  let after = join overlap (omega arith) in
                  let same =
                    drop-drop size start (start + (size - overlap) + overlap) xs (omega arith) in
                  rw (width, after, ← same)
                    (drop-take k size ys (omega arith) ∙ drop-drop k start (start + k) xs refl),
            ),
          ),
        )

    branch-Cuts :
        (b : Bool) (x y : Option (List (List A)))
        → (b ≡ true → Cuts size overlap xs start x)
        → (b ≡ false → Cuts size overlap xs start y)
        → Cuts size overlap xs start (elim b [ true ↦ x | false ↦ y ])
    branch-Cuts true x y hx hy = hx refl
    branch-Cuts false x y hx hy = hy refl

  window_loop-Cuts :
      (fuel size overlap : ℕ) (xs : List A) (start : ℕ)
      → overlap < size
      → length xs < fuel + start
      → 1 ≤ fuel
      → Cuts size overlap xs start (window_loop fuel size overlap xs start)
  unfolding window_loop
  window_loop-Cuts zero size overlap xs start fits enough some_fuel = ground arith
  window_loop-Cuts (suc fuel) size overlap xs start fits enough some_fuel =
      let end : ℕ = if leb (start + size) (length xs) then start + size else length xs in
      branch-Cuts size overlap xs start (ltb start (length xs)) _ _
        (λ inside.
          branch-Cuts size overlap xs start (end == length xs) _ _
            (λ at_end.
              let stop : end ≡ length xs = ground arith in
              subst (λ m. Cuts size overlap xs start (some (slice start m xs ∷ []))) (sym stop)
                (last-Cuts size overlap xs start (ground arith)))
            (λ before.
              let stop : end ≡ start + size = ground arith in
              let rest = window_loop fuel size overlap xs (start + (size - overlap)) in
              let later =
                window_loop-Cuts fuel size overlap xs (start + (size - overlap)) fits (ground arith)
                  (ground arith) in
              subst
                (λ m.
                  Cuts size overlap xs start
                    (elim rest [ none ↦ none | some ws ↦ some (slice start m xs ∷ ws) ]))
                (sym stop) (next-Cuts size overlap xs start rest fits later)))
        (λ outside. past-Cuts size overlap xs start (ground arith))

  -- The window loop ends on a round for each element and one more, whatever sizes are asked for;
  -- no window is longer than the size, and the windows, each after the first without its overlap,
  -- are the whole sequence again.
  pub windows-cover :
      (size overlap : ℤ) (xs : List A)
      → (ws : List (List A)) × ((windows size overlap xs ≡ some ws)
          × ((every (λ w. leb (length w) (chunk_size size)) ws ≡ true)
              × (joined 0 (chunk_overlap overlap size) ws ≡ xs)))
  unfolding windows drop Cuts
  windows-cover size overlap xs =
      let fits = chunk_overlap_less overlap size in
      let (ws, (given, (short, join))) =
        window_loop-Cuts (suc (length xs)) (chunk_size size) (chunk_overlap overlap size) xs 0 fits
          (omega arith) (omega arith) in
      (ws, (given, (short, join 0 (omega arith))))
