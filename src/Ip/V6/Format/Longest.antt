-- ===== src/Ip/V6/Format/Longest.antt =====
-- The search of `compressed_ipv6` finds the longest run of zeros, and of several the leftmost.
use iouxx.Base.{
  ℕ, zero, suc, ◌+◌, ◌≤◌, ◌<◌, ◌-◌, List, [], ◌∷◌, ◌++◌, append-nil, append_assoc, ◌≡◌, ◌⊎◌, refl,
  sym, ap, ap₂, subst, ◌∙◌, arith, ◌==◌, ltb, if◌then◌else◌, length, length-append,
  length-replicate, get_or, replicate, Bool-cases, inl, inr,
}
use iouxx.Ip.V6.Format.{Run, no_run, scan_word, scan}
use iouxx.Ip.V6.Format.Runs.{IsZeroRun, scan-IsZeroRun}

-- The words with indices from `start` up to `start + len` are zeros.
pub record AreZeros (ws : List ℕ) (start len : ℕ) : Type 0 where
  pub inside : start + len ≤ length ws
  pub zeros : (i : ℕ) → start ≤ i → i < start + len → get_or ws i 1 ≡ 0

get_or-append : (ws vs : List ℕ) (i : ℕ) → i < length ws → get_or (ws ++ vs) i 1 ≡ get_or ws i 1
get_or-append [] vs i h = absurd (omega arith)
get_or-append (w ∷ ws) vs zero h = refl
get_or-append (w ∷ ws) vs (suc i) h = get_or-append ws vs i (omega arith)

get_or-beyond : (ws vs : List ℕ) (j : ℕ) → get_or (ws ++ vs) (length ws + j) 1 ≡ get_or vs j 1
get_or-beyond [] vs j = ap (λ n. get_or vs n 1) (omega arith)
get_or-beyond (w ∷ ws) vs j =
    let next : suc (length ws) + j ≡ suc (length ws + j) = omega arith in
    ap (λ n. get_or (w ∷ (ws ++ vs)) n 1) next ∙ get_or-beyond ws vs j

get_or-zeros : (len : ℕ) (vs : List ℕ) (j : ℕ) → j < len → get_or (replicate len 0 ++ vs) j 1 ≡ 0
get_or-zeros zero vs j h = absurd (omega arith)
get_or-zeros (suc len) vs zero h = refl
get_or-zeros (suc len) vs (suc j) h = get_or-zeros len vs j (omega arith)

-- A run that ends before the last word is there without it.
AreZeros-before :
    (ws : List ℕ) (w start len : ℕ)
    → AreZeros (ws ++ w ∷ []) start len
    → start + len ≤ length ws
    → AreZeros ws start len
AreZeros-before ws w start len run h = record {
  inside = h;
  zeros = λ i le lt. sym (get_or-append ws (w ∷ []) i (omega arith)) ∙ run.zeros i le lt;
}

-- A run that ends with the last word: this word is zero, and those before it are a run.
last_zero :
    (ws : List ℕ) (w start len : ℕ)
    → AreZeros (ws ++ w ∷ []) start (suc len)
    → start + suc len ≡ length ws + 1
    → w ≡ 0
last_zero ws w start len run e =
    sym (get_or-beyond ws (w ∷ []) 0) ∙ run.zeros (length ws + 0) (omega arith) (omega arith)

AreZeros-front :
    (ws : List ℕ) (w start len : ℕ)
    → AreZeros (ws ++ w ∷ []) start (suc len)
    → start + suc len ≡ length ws + 1
    → AreZeros ws start len
AreZeros-front ws w start len run e = record {
  inside = omega arith;
  zeros = λ i le lt. sym (get_or-append ws (w ∷ []) i (omega arith)) ∙ run.zeros i le (omega arith);
}

record IsSearched (ws : List ℕ) (r : Run) : Type 0 where
  best_inside : r.best_start + r.best_len ≤ length ws
  longest : (start len : ℕ) → AreZeros ws start len → len ≤ r.best_len
  leftmost : (start : ℕ) → 0 < r.best_len → AreZeros ws start r.best_len → r.best_start ≤ start
  cur_end : 0 < r.cur_len → r.cur_start + r.cur_len ≡ length ws
  last : (start len : ℕ) → AreZeros ws start len → start + len ≡ length ws → len ≤ r.cur_len

end_cases :
    (ws : List ℕ) (w start len : ℕ)
    → AreZeros (ws ++ w ∷ []) start len
    → (start + len ≤ length ws) ⊎ (start + len ≡ length ws + 1)
end_cases ws w start len run = omega (arith, run.inside, length-append {0} ws (w ∷ []))

-- A word that is no zero.
module _ (ws : List ℕ) (w : ℕ) (r : Run) (s : IsSearched ws r) (nonzero : ¬ (w ≡ 0)) where
  miss_run : (start len : ℕ) → AreZeros (ws ++ w ∷ []) start len → (len ≡ 0) ⊎ AreZeros ws start len
  miss_run start zero run = inl refl
  miss_run start (suc len) run = elim (end_cases ws w start (suc len) run) [
    | inl le ↦ inr (AreZeros-before ws w start (suc len) run le)
    | inr e ↦ absurd (nonzero (last_zero ws w start len run e))
  ]

  miss : IsSearched (ws ++ w ∷ []) (record r { cur_len = 0 })
  miss = record {
    best_inside = omega (arith, s.best_inside, length-append {0} ws (w ∷ []));
    longest = λ start len run. elim (miss_run start len run) [
      | inl z ↦ omega arith
      | inr run' ↦ s.longest start len run'
    ];
    leftmost = λ start pos run. elim (miss_run start r.best_len run) [
      | inl z ↦ absurd (omega arith)
      | inr run' ↦ s.leftmost start pos run'
    ];
    cur_end = λ p. absurd (omega arith);
    last = λ start len run e. elim (miss_run start len run) [
      | inl z ↦ omega arith
      | inr run' ↦ absurd (omega (arith, run'.inside, length-append {0} ws (w ∷ [])))
    ];
  }

-- A zero.
module _ (ws : List ℕ) (w : ℕ) (r : Run) (s : IsSearched ws r) where
  abbrev next_start : ℕ
  next_start = if r.cur_len == 0 then length ws else r.cur_start

  next_end : next_start + (r.cur_len + 1) ≡ length ws + 1
  next_end = elim (Bool-cases (r.cur_len == 0)) [
    | inl fresh ↦ let nul : r.cur_len ≡ 0 = ground arith in rw fresh (omega (arith, nul))
    | inr going ↦
        let some_zeros : 0 < r.cur_len = ground arith in
        rw going (omega (arith, s.cur_end some_zeros))
  ]

  -- A run is among the words before, or ends with the zero and is no longer than the current one.
  hit_run :
      (start len : ℕ)
      → AreZeros (ws ++ w ∷ []) start len
      → AreZeros ws start len ⊎ ((start + len ≡ length ws + 1) × (len ≤ r.cur_len + 1))
  hit_run start len run = elim (end_cases ws w start len run) [
    | inl le ↦ inl (AreZeros-before ws w start len run le)
    | inr e ↦ inr (e, at_end len run e)
  ]
    where
      at_end :
          (n : ℕ) → AreZeros (ws ++ w ∷ []) start n → start + n ≡ length ws + 1 → n ≤ r.cur_len + 1
      at_end zero run e = omega arith
      at_end (suc n) run e =
          omega (arith, s.last start n (AreZeros-front ws w start n run e) (omega arith))

  longer :
      r.best_len < r.cur_len + 1
      → IsSearched (ws ++ w ∷ []) (record {
        best_start = next_start;
        best_len = r.cur_len + 1;
        cur_start = next_start;
        cur_len = r.cur_len + 1;
      })
  longer lt = record {
    best_inside = omega (arith, next_end, length-append {0} ws (w ∷ []));
    longest = λ start len run. elim (hit_run start len run) [
      | inl run' ↦ omega (arith, s.longest start len run')
      | inr (e, le) ↦ le
    ];
    leftmost = λ start pos run. elim (hit_run start (r.cur_len + 1) run) [
      | inl run' ↦ absurd (omega (arith, s.longest start (r.cur_len + 1) run'))
      | inr (e, le) ↦ omega (arith, next_end)
    ];
    cur_end = λ p. omega (arith, next_end, length-append {0} ws (w ∷ []));
    last = λ start len run e. elim (hit_run start len run) [
      | inl run' ↦ absurd (omega (arith, run'.inside, length-append {0} ws (w ∷ [])))
      | inr (e', le) ↦ le
    ];
  }

  shorter :
      r.cur_len + 1 ≤ r.best_len
      → IsSearched (ws ++ w ∷ []) (record r { cur_start = next_start; cur_len = r.cur_len + 1 })
  shorter le = record {
    best_inside = omega (arith, s.best_inside, length-append {0} ws (w ∷ []));
    longest = λ start len run. elim (hit_run start len run) [
      | inl run' ↦ s.longest start len run'
      | inr (e, le') ↦ omega arith
    ];
    leftmost = λ start pos run. elim (hit_run start r.best_len run) [
      | inl run' ↦ s.leftmost start pos run'
      | inr (e, le') ↦ omega (arith, s.best_inside)
    ];
    cur_end = λ p. omega (arith, next_end, length-append {0} ws (w ∷ []));
    last = λ start len run e. elim (hit_run start len run) [
      | inl run' ↦ absurd (omega (arith, run'.inside, length-append {0} ws (w ∷ [])))
      | inr (e', le') ↦ le'
    ];
  }

scan_word-IsSearched :
    (ws : List ℕ) (w : ℕ) (r : Run)
    → IsSearched ws r
    → IsSearched (ws ++ w ∷ []) (scan_word (length ws) w r)
unfolding scan_word
scan_word-IsSearched ws w r s = elim (Bool-cases (w == 0)) [
  | inl hit ↦ elim (Bool-cases (ltb r.best_len (r.cur_len + 1))) [
    | inl more ↦ rw (hit, more) (longer ws w r s (ground arith))
    | inr less ↦ rw (hit, less) (shorter ws w r s (ground arith))
  ]
  | inr other ↦ rw other (miss ws w r s (λ z. ground arith))
]

scan-IsSearched :
    (vs ws : List ℕ) (i : ℕ) (r : Run)
    → i ≡ length ws
    → IsSearched ws r
    → IsSearched (ws ++ vs) (scan vs i r)
unfolding scan
scan-IsSearched [] ws i r e s = rw append-nil s
scan-IsSearched (v ∷ vs) ws i r e s =
    subst (λ l. IsSearched l (scan vs (suc i) (scan_word i v r))) (append_assoc ws (v ∷ []) vs)
      (scan-IsSearched vs (ws ++ v ∷ []) (suc i) (scan_word i v r)
        (omega (arith, length-append {0} ws (v ∷ []), e)) (rw e (scan_word-IsSearched ws v r s)))

nothing-IsSearched : IsSearched [] no_run
nothing-IsSearched = record {
  best_inside = omega arith;
  longest = λ start len run. omega (arith, run.inside);
  leftmost = λ start pos run. absurd (omega arith);
  cur_end = λ p. absurd (omega arith);
  last = λ start len run e. omega (arith, run.inside);
}

zeros_of_run : (ws : List ℕ) (start len : ℕ) → IsZeroRun ws start len → AreZeros ws start len
zeros_of_run ws start len run = record {
  inside = omega (
    arith,
    ap length run.splits,
    run.starts,
    length-append {0} run.before (replicate len 0 ++ run.after),
    length-append {0} (replicate {A = ℕ} len 0) run.after,
    length-replicate {0} {A = ℕ} len 0,
  );
  zeros = λ i le lt.
      let there : i ≡ length run.before + (i - start) = omega (arith, run.starts) in
      ap₂ (λ l n. get_or l n 1) run.splits there
      ∙ get_or-beyond run.before (replicate len 0 ++ run.after) (i - start)
      ∙ get_or-zeros len run.after (i - start) (omega arith);
}

-- What the search of compressed_ipv6 finds are zeros within the words; no run of zeros is longer,
-- and none of one or more zeros that is as long starts further left.
pub scan-longest :
    (ws : List ℕ)
    → AreZeros ws (scan ws 0 no_run).best_start (scan ws 0 no_run).best_len
      × ((start len : ℕ)
          → AreZeros ws start len
          → (len ≤ (scan ws 0 no_run).best_len)
            × (0 < len → len ≡ (scan ws 0 no_run).best_len → (scan ws 0 no_run).best_start ≤ start))
scan-longest ws =
    let s = scan-IsSearched ws [] 0 no_run refl nothing-IsSearched in
    (
      zeros_of_run ws _ _ (scan-IsZeroRun ws),
      λ start len run.
          (s.longest start len run, λ pos e. s.leftmost start (omega arith) (rw e at run)),
    )
